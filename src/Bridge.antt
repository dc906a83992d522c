-- ===== src/Bridge.antt =====
-- src/common_state.hpp and src/common_state.cpp, with the sessions and the messenger that they
-- connect: the steps of the whole. A handler runs without another in between.
pub mod Steps
pub mod Delivery
pub mod Liveness
pub mod Members
pub mod Pointers
pub mod Waiting
pub mod Commands
pub mod Effects
use gate_control.Base.{
  nth, modify, ℕ, zero, suc, Bool, true, false, not, ◌||◌, ◌==◌, List, [], ◌∷◌, ◌++◌, map, Option,
  none, some, length, if◌then◌else◌, ◌≡◌,
}
use gate_control.Base.Text.{Str}
use gate_control.Base.Outcome.{Outcome, ok, raised, undefined, ◌>>=◌}
use gate_control.Json.{JsonLib}
use gate_control.Message.{MessageType, query_state, query_state_result, JsonMessage, dump_message}
use gate_control.Messenger.{Messenger, send_message}
use gate_control.Socket.{Session, is_alive, queue_message}

-- The sessions that were ever made stand in a store: a pointer to one is its place there.
abbrev pub alive_in : Option Session → Bool
alive_in none = false
alive_in (some s) = is_alive s

-- `expired` is its negation.
unfoldable pub is_live : List Session → ℕ → Bool
is_live store i = alive_in (nth i store)

-- `std::remove_if` on the expired pointers
unfoldable pub remove_dead : List Session → List ℕ → List ℕ
unfolding is_live
remove_dead store [] = []
remove_dead store (i ∷ is) =
    if is_live store i then i ∷ remove_dead store is else remove_dead store is

module _ (J : JsonLib) where
  pub record World : Type 0 where
    pub store : List Session
    pub sessions : List ℕ
    pub messenger : Messenger J
    -- Whether `update` posts itself again.
    pub is_updating : Bool

  -- The query for the seven gates.
  abbrev pub state_query : JsonMessage J
  state_query = record {
    type = query_state;
    payload = J.of_array (map J.of_number (0 ∷ 1 ∷ 2 ∷ 3 ∷ 4 ∷ 5 ∷ 6 ∷ []));
  }

  unfoldable pub add_session : Session → World → World
  add_session session w = record w {
    store = w.store ++ session ∷ [];
    sessions = w.sessions ++ length w.store ∷ [];
    messenger = send_message J state_query w.messenger;
  }

  abbrev pub is_result : MessageType → Bool
  is_result query_state_result = true
  is_result _ = false

  -- `dump_message` is called once for each session that is locked.
  unfoldable pub send_all : JsonMessage J → List ℕ → List Session → Outcome (List Session)
  unfolding is_live
  send_all message [] store = ok store
  send_all message (i ∷ is) store =
      let rest = send_all message is in
      if is_live store i
      then (dump_message J message >>= λ t. rest (modify i (queue_message t) store))
      else rest store

  abbrev pub pop_to : List Session → List (JsonMessage J) → World → World
  pop_to store rest w = record w {
    store = store;
    messenger = record w.messenger { incoming_message_queue = rest };
  }

  abbrev pub update_with : List (JsonMessage J) → World → Outcome World
  update_with [] w = ok w
  update_with (message ∷ rest) w =
      if is_result message.type
      then (send_all message w.sessions w.store >>= λ store. ok (pop_to store rest w))
      else ok w

  -- The end of `update`, where there are sessions: the dead go, the others get the message.
  abbrev pub update_sessions : World → Outcome World
  update_sessions w =
      update_with w.messenger.incoming_message_queue
        (record w { sessions = remove_dead w.store w.sessions })

  unfoldable pub update : World → Outcome World
  unfolding remove_dead send_all
  update w = if length w.sessions == 0 then ok w else update_sessions w
