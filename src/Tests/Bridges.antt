-- ===== src/Tests/Bridges.antt =====
-- The messenger, the sessions and the shared state, with the toy JSON library.
use gate_control.Base.{List, Option, [], ◌∷◌, none, some, ◌≡◌, refl, true}
use gate_control.Base.Text.{Str, codes, str_eq}
use gate_control.Base.Outcome.{◌>>=◌, ok}
use gate_control.AuthTable.Types.{control}
use gate_control.Auth.Digest.{get, get_auth}
use gate_control.Message.{
  JsonMessage, query_state_result, availability, parse_message, message_of, str_to_type,
}
use gate_control.Messenger.{Messenger, idle, run, do_read, do_write, polling}
use gate_control.Messenger.Reading.{read_all, documents, behind, read_all-documents}
use gate_control.Socket.{Session, new_session, is_alive, do_accept}
use gate_control.Bridge.{World, add_session, remove_dead, update, is_live}
use gate_control.Bridge.Steps.{Reaches, connect, updated, start, next, initial}
use gate_control.Bridge.Commands.{IsSafeMessenger, Reaches-IsSafeMessenger}
use gate_control.Bridge.Pointers.{IsWellFormed, HoldsTheLiving, Reaches-IsWellFormed}
use gate_control.Bridge.Waiting.{Waits, Reaches-Waits}
use gate_control.Tests.Login.{hash, users}
use gate_control.Tests.ToyJson.{toy}

abbrev opaque : Str
opaque = codes "o1"

abbrev running : Messenger toy
running = record (idle toy) { is_reading = true; write_loop = polling }

started : run toy (idle toy) ≡ ok running
unfolding run do_read do_write
started = refl

-- A client without credentials, whose session is dead at once.
refused : do_accept hash none get users (codes "n1") opaque new_session ≡ ok new_session
unfolding do_accept get_auth
refused = refl

abbrev first_world : World toy
first_world = initial toy hash users opaque running

abbrev second_world : World toy
second_world = add_session toy new_session first_world

one_client : Reaches toy hash users opaque first_world second_world
one_client = next start (connect none get (codes "n1") refused refl)

Reaches-IsSafeMessenger_example : IsSafeMessenger toy hash users opaque second_world.messenger
Reaches-IsSafeMessenger_example =
    Reaches-IsSafeMessenger toy hash users opaque running second_world started one_client

first-IsWellFormed : IsWellFormed toy hash users opaque first_world
unfolding is_live
first-IsWellFormed = record { distinct = tt; made = tt; live_held = λ i live. absurd (cc live) }

Reaches-IsWellFormed_example :
    IsWellFormed toy hash users opaque second_world
    × ((w : World toy) → update toy second_world ≡ ok w → HoldsTheLiving toy hash users opaque w)
Reaches-IsWellFormed_example =
    Reaches-IsWellFormed toy hash users opaque {w = first_world} {w' = second_world} one_client
      first-IsWellFormed

abbrev live_session : Session
live_session = record new_session { permissions = control; is_reading = true }

abbrev result : JsonMessage toy
result = record { type = query_state_result; payload = toy.null }

abbrev result_text : Str
result_text = 1 ∷ codes "query_state_result"

abbrev states_come : World toy
states_come = record {
  store = live_session ∷ new_session ∷ [];
  sessions = 0 ∷ 1 ∷ [];
  messenger = record running { incoming_message_queue = result ∷ [] };
  is_updating = true;
}

abbrev announcement : JsonMessage toy
announcement = record { type = availability; payload = toy.null }

abbrev stuck : World toy
stuck = record states_come {
  messenger = record running { incoming_message_queue = announcement ∷ result ∷ [] };
}

abbrev pruned : World toy
pruned = record stuck { sessions = 0 ∷ [] }

one_update : update toy stuck ≡ ok pruned
unfolding update remove_dead is_alive
one_update = refl

Reaches-Waits_example : Waits toy hash users opaque announcement stuck pruned
Reaches-Waits_example =
    Reaches-Waits toy hash users opaque announcement refl {w = stuck} {w' = pruned}
      (next start (updated refl one_update)) (result ∷ [], refl)

-- A message, a read of nothing and an error, after which the port is
-- left alone.
abbrev reads : List (Option Str)
reads = some result_text ∷ some [] ∷ none ∷ some result_text ∷ []

read_all-documents_example :
    read_all toy reads running ≡ (documents toy reads >>= behind toy reads running)
read_all-documents_example = read_all-documents toy reads running refl refl

one_document : documents toy reads ≡ ok (result ∷ [])
unfolding parse_message message_of str_to_type toy str_eq
one_document = refl
