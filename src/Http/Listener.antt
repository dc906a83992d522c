-- ===== src/Http/Listener.antt =====
-- src/http_listener.hpp and src/http_listener.cpp: the nonces that the sessions of an address
-- share.
pub mod Nonces
use gate_control.Base.{Bool, List, [], ◌∷◌, Option, none, some, if◌then◌else◌, is_some}
use gate_control.Base.Text.{Str}
use gate_control.Base.Outcome.{Outcome, ok, raised}
use gate_control.Http.Session.{HttpSession, new_http_session}

module _ {ℓ} (Address : Type ℓ) (same : Address → Address → Bool) where
  -- `associated_nonces`, with what its pointers point to.
  abbrev pub Nonces : Type ℓ
  Nonces = List (Address × Str)

  -- `associated_nonces.find(a)`
  unfoldable pub nonce_of : Address → Nonces → Option Str
  nonce_of a [] = none
  nonce_of a ((b, nonce) ∷ t) = if same b a then some nonce else nonce_of a t

  -- `*nonce = ...` by a session of the address
  unfoldable pub renew : Address → Str → Nonces → Nonces
  renew a fresh [] = []
  renew a fresh ((b, nonce) ∷ t) = if same b a then (b, fresh) ∷ t else (b, nonce) ∷ renew a fresh t

  -- `insert` where the address was not found.
  unfoldable pub add_nonce : Address → Str → Nonces → Nonces
  unfolding nonce_of
  add_nonce a fresh t = if is_some (nonce_of a t) then t else (a, fresh) ∷ t

  -- `associated_nonces.at`, and the session that is made with what it gives.
  abbrev session_with : Nonces → Option Str → Outcome (Option (Nonces × HttpSession))
  session_with t none = raised
  session_with t (some nonce) = ok (some (t, new_http_session nonce))

  -- What `async_accept` ends with: an error, or a socket, whose `remote_endpoint()` throws where it
  -- is not connected any more (`none`).
  pub data Accepted : Type ℓ where
    failed : Accepted
    connected : Option Address → Accepted

  -- After an error no connection is accepted any more, and neither after an exception. The result
  -- is the table and the new session.
  unfoldable pub on_accept : Accepted → Str → Nonces → Outcome (Option (Nonces × HttpSession))
  unfolding add_nonce nonce_of
  on_accept failed fresh t = ok none
  on_accept (connected none) fresh t = raised
  on_accept (connected (some a)) fresh t =
      session_with (add_nonce a fresh t) (nonce_of a (add_nonce a fresh t))
