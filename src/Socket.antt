-- ===== src/Socket.antt =====
-- src/websocket_session.hpp and src/websocket_session.cpp: a client's session, with the queue of
-- the texts for it.
pub mod Effects
use gate_control.Base.{
  Bool, true, false, not, ◌&&◌, ◌||◌, List, [], ◌∷◌, ◌++◌, Option, none, some, if◌then◌else◌,
}
use gate_control.Base.Text.{Str}
use gate_control.Base.Outcome.{Outcome, ok, raised, undefined, ◌>>=◌}
use gate_control.Json.{JsonLib}
use gate_control.AuthTable.Types.{AuthData, AuthTable, AuthorizationType, blocked, view, control}
use gate_control.Auth.Digest.{Verb, get_auth}
use gate_control.Message.{
  MessageType, query_state, query_state_result, change_state, availability, JsonMessage,
  parse_message,
}
use gate_control.Messenger.{Loop, polling, in_flight, stopped, Messenger, send_message}

pub record Session : Type 0 where
  pub permissions : AuthorizationType
  pub write_queue : List Str
  pub write_buffer : Str
  -- The handlers that are pending, and hold the session alive.
  pub is_accepting : Bool
  pub is_reading : Bool
  pub write_loop : Loop

abbrev pub new_session : Session
new_session = record {
  permissions = blocked;
  write_queue = [];
  write_buffer = [];
  is_accepting = false;
  is_reading = false;
  write_loop = stopped;
}

abbrev pub is_running : Loop → Bool
is_running polling = true
is_running in_flight = true
is_running stopped = false

-- Whether a weak pointer to the session can be locked.
unfoldable pub is_alive : Session → Bool
is_alive s = s.is_accepting || s.is_reading || is_running s.write_loop

abbrev pub is_blocked : AuthorizationType → Bool
is_blocked blocked = true
is_blocked _ = false

abbrev pub accept : Option AuthData → Session → Session
accept none s = s
accept (some auth) s =
    if is_blocked auth.permissions
    then s
    else record s { permissions = auth.permissions; is_accepting = true }

-- The arguments are the request's `Authorization` field and its method.
unfoldable pub do_accept :
    (Str → Str) → Option Str → Verb → AuthTable → Str → Str → Session → Outcome Session
do_accept H field method auth_table nonce opaque s =
    get_auth H field method auth_table nonce opaque >>= λ auth. ok (accept auth s)

abbrev write_next : List Str → Session → Session
write_next [] s = record s { write_loop = polling }
write_next (message ∷ rest) s = record s {
  write_buffer = message;
  write_queue = rest;
  write_loop = in_flight;
}

unfoldable pub do_write : Session → Session
do_write s = write_next s.write_queue s

-- The argument says whether the handshake failed.
unfoldable pub on_accept : Bool → Session → Session
unfolding do_write
on_accept true s = record s { is_accepting = false }
on_accept false s = do_write (record s { is_accepting = false; is_reading = true })

-- The argument says whether the write failed.
unfoldable pub on_write : Bool → Session → Session
unfolding do_write
on_write true s = record s { write_loop = stopped }
on_write false s = do_write s

unfoldable pub queue_message : Str → Session → Session
queue_message message s = record s { write_queue = s.write_queue ++ message ∷ [] }

abbrev pub is_request : MessageType → Bool
is_request query_state = true
is_request change_state = true
is_request _ = false

abbrev pub is_control : AuthorizationType → Bool
is_control control = true
is_control _ = false

module _ (J : JsonLib) where
  -- An exception of the parser is dropped.
  abbrev pub forward : Messenger J → Outcome (JsonMessage J) → Outcome (Messenger J)
  forward m (ok parsed_msg) =
      if is_request parsed_msg.type then ok (send_message J parsed_msg m) else ok m
  forward m raised = ok m
  forward m undefined = undefined

  unfoldable pub handle_message : Str → Session → Messenger J → Outcome (Messenger J)
  handle_message message s m =
      if is_control s.permissions then forward m (parse_message J message) else ok m

  -- What a read gives: a text, other data, or an error, the end of the session among them.
  pub data Frame : Type 0 where
    text_frame : Str → Frame
    binary_frame : Frame
    closed : Frame

  -- `on_read`: the session and the messenger after it. `do_read` follows unless there was an error.
  unfoldable pub on_read : Frame → Session → Messenger J → Outcome (Session × Messenger J)
  unfolding handle_message
  on_read closed s m = ok (record s { is_reading = false }, m)
  on_read binary_frame s m = ok (record s { is_reading = true }, m)
  on_read (text_frame message) s m =
      handle_message message s m >>= λ m'. ok (record s { is_reading = true }, m')
