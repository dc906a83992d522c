-- ===== src/Bridge/Delivery.antt =====
-- `common_state::update` hands a message to every live session once.
use gate_control.Base.{
  nth, modify, apply_to, nth-modify, ℕ, Bool, true, false, ◌&&◌, ◌==◌, List, [], ◌∷◌, Option, none,
  some, length, any, if◌then◌else◌, ◌≡◌, refl, ap, arith, Bool-cases, ==_iff, inl, inr,
}
use gate_control.Base.Text.{Str}
use gate_control.Base.Outcome.{ok}
use gate_control.Json.{JsonLib}
use gate_control.Message.{JsonMessage, dump_message}
use gate_control.Socket.{Session, is_alive, queue_message}
use gate_control.Bridge.{alive_in, is_live, remove_dead, World, is_result}

abbrev pub is_member : ℕ → List ℕ → Bool
is_member i is = any (◌==◌ i) is

-- Each pointer stands once.
abbrev pub Distinct : List ℕ → Type 0
Distinct [] = Unit
Distinct (i ∷ is) = (is_member i is ≡ false) × Distinct is

-- A text in the queue does not change whether a session lives.
pub is_live-queue_message :
    (t : Str) (i j : ℕ) (store : List Session)
    → is_live (modify j (queue_message t) store) i ≡ is_live store i
unfolding is_live queue_message is_alive
is_live-queue_message t i j store =
    rw (nth-modify i j (queue_message t) store) (same (i == j) (nth i store))
  where
    same :
        (b : Bool) (o : Option Session)
        → alive_in (if b then apply_to (queue_message t) o else o) ≡ alive_in o
    same true none = refl
    same true (some s) = refl
    same false o = refl

pub is_member-remove_dead :
    (store : List Session) (i : ℕ) (is : List ℕ)
    → is_member i (remove_dead store is) ≡ (is_member i is && is_live store i)
unfolding remove_dead
is_member-remove_dead store i [] = refl
is_member-remove_dead store i (j ∷ is) =
    let same : (i == j) ≡ true → is_live store i ≡ is_live store j =
      λ h. ap (is_live store) ((==_iff i j).0 h) in
    elim (Bool-cases (is_live store j)) [
      | inl live ↦ rw live (ground (arith, same, is_member-remove_dead store i is))
      | inr dead ↦ rw dead (ground (arith, same, is_member-remove_dead store i is))
    ]

pub remove_dead-Distinct :
    (store : List Session) (is : List ℕ) → Distinct is → Distinct (remove_dead store is)
unfolding remove_dead
remove_dead-Distinct store [] d = tt
remove_dead-Distinct store (j ∷ is) d =
    ground (arith, is_member-remove_dead store j is, remove_dead-Distinct store is d.1)

module _ (J : JsonLib) where
  -- A session after a message for the sessions of a list.
  abbrev pub Receives : Str → List ℕ → List Session → List Session → Type 0
  Receives t is store store' =
      (i : ℕ)
      → nth i store' ≡ (
          if is_member i is && is_live store i
          then apply_to (queue_message t) (nth i store)
          else nth i store)

  -- The states that an `update` finds a message for the clients in.
  abbrev pub HasResult : JsonMessage J → List (JsonMessage J) → Str → World J → Type 0
  HasResult message rest t w =
      (w.messenger.incoming_message_queue ≡ message ∷ rest)
      × (is_result J message.type ≡ true)
      × (dump_message J message ≡ ok t)
      × ((length w.sessions == 0) ≡ false)
