-- ===== src/Bridge/Steps.antt =====
-- The steps of the sessions, the messenger and the shared state, one handler at a time. A handler
-- with undefined behaviour has no step.
use gate_control.Base.{nth, modify, ℕ, Bool, true, false, [], Option, some, ◌≡◌}
use gate_control.Base.Text.{Str}
use gate_control.Base.Outcome.{ok, raised}
use gate_control.Json.{JsonLib}
use gate_control.AuthTable.Types.{AuthTable}
use gate_control.Auth.Digest.{Verb}
use gate_control.Messenger.{
  polling, in_flight, stopped, Messenger, on_read as port_on_read, do_write as port_do_write,
  on_write as port_on_write,
}
use gate_control.Socket.{
  Session, Frame, new_session, do_accept, on_accept, do_write, on_write, on_read,
}
use gate_control.Bridge.{remove_dead, World, add_session, update}

module _ (J : JsonLib) (H : Str → Str) (auth_table : AuthTable) (opaque : Str) where
  abbrev pub set_session : ℕ → Session → World J → World J
  set_session i s w = record w { store = modify i (λ _. s) w.store }

  abbrev pub set_messenger : Messenger J → World J → World J
  set_messenger m w = record w { messenger = m }

  pub data Step : World J → World J → Type 0 where
    -- A client asks for a session: `do_accept`, then `add_session`.
    connect :
        {w w' : World J} {s : Session} (field : Option Str) (method : Verb) (nonce : Str)
        → do_accept H field method auth_table nonce opaque new_session ≡ ok s
        → w' ≡ add_session J s w
        → Step w w'
    accepted :
        {w w' : World J} {s : Session} (i : ℕ) (error : Bool)
        → nth i w.store ≡ some s
        → s.is_accepting ≡ true
        → w' ≡ set_session i (on_accept error s) w
        → Step w w'
    client_read :
        {w w' : World J} {s s' : Session} {m : Messenger J} (i : ℕ) (frame : Frame J)
        → nth i w.store ≡ some s
        → s.is_reading ≡ true
        → on_read J frame s w.messenger ≡ ok (s', m)
        → w' ≡ set_messenger m (set_session i s' w)
        → Step w w'
    client_poll :
        {w w' : World J} {s : Session} (i : ℕ)
        → nth i w.store ≡ some s
        → s.write_loop ≡ polling
        → w' ≡ set_session i (do_write s) w
        → Step w w'
    client_written :
        {w w' : World J} {s : Session} (i : ℕ) (error : Bool)
        → nth i w.store ≡ some s
        → s.write_loop ≡ in_flight
        → w' ≡ set_session i (on_write error s) w
        → Step w w'
    updated : {w w' : World J} → w.is_updating ≡ true → update J w ≡ ok w' → Step w w'
    -- An exception leaves the handler before it posts itself again.
    update_raised :
        {w w' : World J}
        → w.is_updating ≡ true
        → update J w ≡ raised
        → w' ≡ record w { sessions = remove_dead w.store w.sessions; is_updating = false }
        → Step w w'
    port_read :
        {w w' : World J} {m : Messenger J} (bytes : Option Str)
        → w.messenger.is_reading ≡ true
        → port_on_read J bytes w.messenger ≡ ok m
        → w' ≡ set_messenger m w
        → Step w w'
    port_poll :
        {w w' : World J} {m : Messenger J}
        → w.messenger.write_loop ≡ polling
        → port_do_write J w.messenger ≡ ok m
        → w' ≡ set_messenger m w
        → Step w w'
    port_written :
        {w w' : World J} {m : Messenger J} (error : Bool)
        → w.messenger.write_loop ≡ in_flight
        → port_on_write J error w.messenger ≡ ok m
        → w' ≡ set_messenger m w
        → Step w w'
    -- `dump_message` threw in `do_write`, and the loop of writes ends there.
    port_raised :
        {w w' : World J}
        → w.messenger.write_loop ≡ polling
        → port_do_write J w.messenger ≡ raised
        → w' ≡ set_messenger (record w.messenger { write_loop = stopped }) w
        → Step w w'
    port_written_raised :
        {w w' : World J}
        → w.messenger.write_loop ≡ in_flight
        → port_on_write J false w.messenger ≡ raised
        → w'
          ≡ set_messenger
              (record w.messenger { outgoing_message_buffer = []; write_loop = stopped })
              w
        → Step w w'

  pub data Reaches : World J → World J → Type 0 where
    start : {w : World J} → Reaches w w
    next : {u v w : World J} → Reaches u v → Step v w → Reaches u w

  -- `main`, before any client: the messenger runs, and `update` is posted.
  abbrev pub initial : Messenger J → World J
  initial m = record { store = []; sessions = []; messenger = m; is_updating = true }
