-- ===== src/Http/Session.antt =====
-- src/http_session.hpp and src/http_session.cpp: the session of a connection, with the queue of its
-- responses, and the upgrade to a WebSocket session.
pub mod Queue
pub mod Upgrade
use gate_control.Base.{
  ℕ, ◌+◌, ◌-◌, Bool, true, false, not, List, [], ◌∷◌, ◌++◌, Option, none, some, length, ltb, ◌==◌,
  if◌then◌else◌, ◌≡◌,
}
use gate_control.Base.Text.{Str, str_eq}
use gate_control.Base.Outcome.{Outcome, ok, raised, undefined, ◌>>=◌, or_raise}
use gate_control.AuthTable.Types.{AuthTable}
use gate_control.Auth.Digest.{DigestAuth, parse_digest_auth_field}
use gate_control.Http.Response.{Request, Response, unauthorized_response}

pub record HttpSession : Type 0 where
  pub response_queue : List Response
  -- The count of `write_semaphore`.
  pub permits : ℕ
  -- The response that is being written.
  pub in_flight : Option Response
  -- Every response that was handed to the stream.
  pub sent : List Response
  pub is_reading : Bool
  pub is_shut : Bool
  -- Shared by the sessions of an address.
  pub nonce : Str

abbrev pub queue_limit : ℕ
queue_limit = 16

abbrev pub do_read : HttpSession → HttpSession
do_read s = record s { is_reading = true }

abbrev pub do_close : HttpSession → HttpSession
do_close s = record s { is_shut = true }

abbrev pub write_first : List Response → HttpSession → Option HttpSession
write_first [] s = some s
write_first (msg ∷ rest) s =
    if s.permits == 0
    then none
    else some (record s {
      response_queue = rest;
      permits = s.permits - 1;
      in_flight = some msg;
      sent = s.sent ++ msg ∷ [];
    })

-- `none` where `write_semaphore.acquire()` waits: the session's strand runs no other handler, so
-- the release that it waits for cannot come. The Boolean is `was_full`.
unfoldable pub do_write : HttpSession → Option (Bool × HttpSession)
do_write s = elim (write_first s.response_queue s) [
  | none ↦ none
  | some s' ↦ some (length s.response_queue == queue_limit, s')
]

abbrev pub drop_flag : Option (Bool × HttpSession) → Option HttpSession
drop_flag none = none
drop_flag (some (_, s)) = some s

unfoldable pub queue_write : Response → HttpSession → Option HttpSession
unfolding do_write
queue_write msg s =
    let s' : HttpSession = record s { response_queue = s.response_queue ++ msg ∷ [] } in
    if length s'.response_queue == 1 then drop_flag (do_write s') else some s'

abbrev read_if_room : Option HttpSession → Option HttpSession
read_if_room none = none
read_if_room (some s) = some (if ltb (length s.response_queue) queue_limit then do_read s else s)

-- What `async_read` ends with.
pub data Received : Type 0 where
  end_of_stream read_error : Received
  received : Request → Received

abbrev pub refuse_digest : Str → Request → Str → Str → Option DigestAuth → Option (Response × Str)
refuse_digest opaque req nonce fresh none = some (unauthorized_response fresh opaque req false)
refuse_digest opaque req nonce fresh (some digest) =
    if not (str_eq digest.nonce nonce)
    then some (unauthorized_response fresh opaque req true)
    else none

-- The answer to an upgrade that is refused; `none` is one that is not. `req.at` throws where there
-- is no such field.
unfoldable pub refusal : Str → Request → Str → Str → Outcome (Option (Response × Str))
refusal opaque req nonce fresh = do
  auth_field ← or_raise req.authorization
  ok (refuse_digest opaque req nonce fresh (parse_digest_auth_field auth_field))

-- A request gets the handler's response, and another is read.
unfoldable pub on_request :
    (Request → Str → Outcome (Response × Str))
    → Request
    → HttpSession
    → Outcome (Option HttpSession)
unfolding queue_write
on_request handler req s = handler req s.nonce >>= λ answer.
    ok (read_if_room (queue_write answer.0 (record s { nonce = answer.1; is_reading = false })))

-- A refused upgrade gets its response and no other request is read; else the socket moves to a
-- WebSocket session.
abbrev pub after_refusal : HttpSession → Option (Response × Str) → Option HttpSession
after_refusal s none = some (record s { is_reading = false })
after_refusal s (some (res, nonce)) =
    queue_write res (record s { nonce = nonce; is_reading = false })

unfoldable pub on_read :
    (Request → Str → Outcome (Response × Str))
    → Str
    → Str
    → Received
    → HttpSession
    → Outcome (Option HttpSession)
unfolding on_request queue_write refusal
on_read handler opaque fresh end_of_stream s =
    ok (some (do_close (record s { is_reading = false })))
on_read handler opaque fresh read_error s = ok (some (record s { is_reading = false }))
on_read handler opaque fresh (received req) s =
    if req.upgrade
    then (refusal opaque req s.nonce fresh >>= λ r. ok (after_refusal s r))
    else on_request handler req s

abbrev read_if_full : Option (Bool × HttpSession) → Option HttpSession
read_if_full none = none
read_if_full (some (was_full, s)) = some (if was_full then do_read s else s)

-- `keep_alive` is that of the response; `error` says whether the write failed.
unfoldable pub on_write : Bool → Bool → HttpSession → Option HttpSession
unfolding do_write
on_write keep_alive error s =
    let s' : HttpSession = record s { permits = s.permits + 1; in_flight = none } in
    if error
    then some s'
    else if not keep_alive
    then some (do_close s')
    else read_if_full (do_write s')

-- A new session, after `run`.
abbrev pub new_http_session : Str → HttpSession
new_http_session nonce = record {
  response_queue = [];
  permits = 1;
  in_flight = none;
  sent = [];
  is_reading = true;
  is_shut = false;
  nonce = nonce;
}

module _ (handler : Request → Str → Outcome (Response × Str)) (opaque : Str) where
  -- The handlers of a session that return.
  pub data Step : HttpSession → HttpSession → Type 0 where
    reads :
        {s s' : HttpSession} (r : Received) (fresh : Str)
        → s.is_reading ≡ true
        → on_read handler opaque fresh r s ≡ ok (some s')
        → Step s s'
    writes :
        {s s' : HttpSession} (msg : Response) (error : Bool)
        → s.in_flight ≡ some msg
        → on_write msg.keep_alive error s ≡ some s'
        → Step s s'
    -- Another session of the address replaces the nonce.
    renews : {s s' : HttpSession} (nonce : Str) → s' ≡ record s { nonce = nonce } → Step s s'

  pub data Reaches : HttpSession → HttpSession → Type 0 where
    start : {s : HttpSession} → Reaches s s
    next : {r s t : HttpSession} → Reaches r s → Step s t → Reaches r t
