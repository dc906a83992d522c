-- ===== src/Socket/Effects.antt =====
-- What a handler of a session changes, as far as the invariants of the bridge ask.
use gate_control.Base.{
  ℕ, Bool, true, false, List, [], ◌∷◌, Option, none, some, drop, ◌≡◌, ◌⊎◌, inl, inr, refl, sym, ap,
  ◌∙◌, Bool-cases,
}
use gate_control.Base.Text.{Str}
use gate_control.Base.Outcome.{Outcome, ok, raised, undefined, ok-elim, bind-ok}
use gate_control.Json.{JsonLib}
use gate_control.AuthTable.Types.{
  AuthData, AuthTable, AuthorizationType, blocked, view, control, find_user,
}
use gate_control.Auth.Digest.{Verb, get_auth}
use gate_control.Auth.Digest.Checking.{get_auth_iff}
use gate_control.Message.{JsonMessage, parse_message}
use gate_control.Messenger.{Messenger, send_message}
use gate_control.Socket.{
  Session, new_session, accept, is_blocked, do_accept, do_write, write_next, on_accept, on_write,
  Frame, text_frame, binary_frame, closed, forward, handle_message, on_read, is_control, is_request,
}

-- The texts for the client at most go from the front of the queue, and the permissions stay.
abbrev pub Drains : Session → Session → Type 0
Drains s s' = ((n : ℕ) × (s'.write_queue ≡ drop n s.write_queue)) × (s'.permissions ≡ s.permissions)

write_next-Drains :
    (queue : List Str) (s : Session) → s.write_queue ≡ queue → Drains s (write_next queue s)
write_next-Drains [] s e = ((0, refl), refl)
write_next-Drains (message ∷ rest) s e = ((1, sym (ap (drop 1) e)), refl)

pub do_write-Drains : (s : Session) → Drains s (do_write s)
unfolding do_write
do_write-Drains s = write_next-Drains s.write_queue s refl

pub on_write-Drains : (error : Bool) (s : Session) → Drains s (on_write error s)
unfolding on_write
on_write-Drains true s = ((0, refl), refl)
on_write-Drains false s = do_write-Drains s

pub on_accept-Drains : (error : Bool) (s : Session) → Drains s (on_accept error s)
unfolding on_accept
on_accept-Drains true s = ((0, refl), refl)
on_accept-Drains false s = do_write-Drains (record s { is_accepting = false; is_reading = true })

-- A user of the table that may control the gates.
abbrev pub HasController : AuthTable → Type 0
HasController t =
    (login : Str) × (user : AuthData) × (find_user login t ≡ some user)
    × (user.permissions ≡ control)

accept-new :
    (t : AuthTable) (auth : Option AuthData)
    → ((user : AuthData) → auth ≡ some user → user.permissions ≡ control → HasController t)
    → ((accept auth new_session).write_queue ≡ [])
      × ((accept auth new_session).permissions ≡ control → HasController t)
accept-new t none known = (refl, λ e. absurd (cc e))
accept-new t (some user) known = elim (Bool-cases (is_blocked user.permissions)) [
  | inl b ↦ rw b (refl, λ e. absurd (cc e))
  | inr b ↦ rw b (refl, λ e. known user refl e)
]

get_auth-known :
    (H : Str → Str) (field : Option Str) (method : Verb) (t : AuthTable) (nonce opaque : Str)
    (user : AuthData)
    → get_auth H field method t nonce opaque ≡ ok (some user)
    → user.permissions ≡ control
    → HasController t
unfolding get_auth
get_auth-known H none method t nonce opaque user h c = absurd (cc h)
get_auth-known H (some s) method t nonce opaque user h c =
    let granted = (get_auth_iff H s method t nonce opaque user).0 h in
    (granted.digest.username, user, granted.known, c)

-- A session that was let in begins with an empty queue, and with the permissions of a user.
pub do_accept-new :
    (H : Str → Str) (field : Option Str) (method : Verb) (t : AuthTable) (nonce opaque : Str)
    (s : Session)
    → do_accept H field method t nonce opaque new_session ≡ ok s
    → (s.write_queue ≡ []) × (s.permissions ≡ control → HasController t)
unfolding do_accept
do_accept-new H field method t nonce opaque s h =
    let (auth, checked, h') = bind-ok (get_auth H field method t nonce opaque) _ h in
    ok-elim (λ s. (s.write_queue ≡ []) × (s.permissions ≡ control → HasController t)) h'
      (accept-new t auth
        (λ user e. get_auth-known H field method t nonce opaque user (checked ∙ ap ok e)))

is_control→eq : (p : AuthorizationType) → is_control p ≡ true → p ≡ control
is_control→eq control h = refl
is_control→eq blocked h = absurd (cc h)
is_control→eq view h = absurd (cc h)

module _ (J : JsonLib) where
  -- At most a request of a user with control is sent on.
  abbrev pub Forwards : Session → Messenger J → Messenger J → Type 0
  Forwards s m m' =
      (m' ≡ m)
      ⊎ ((message : JsonMessage J) × (is_request message.type ≡ true)
          × (s.permissions ≡ control)
          × (m' ≡ send_message J message m))

  forward-Forwards :
      (s : Session) (m m' : Messenger J) (o : Outcome (JsonMessage J))
      → s.permissions ≡ control
      → forward J m o ≡ ok m'
      → Forwards s m m'
  forward-Forwards s m m' (ok message) c h = elim (Bool-cases (is_request message.type)) [
    | inl r ↦
        let e : forward J m (ok message) ≡ ok (send_message J message m) = rw r in
        ok-elim (Forwards s m) (sym e ∙ h) (inr (message, r, c, refl))
    | inr r ↦
        let e : forward J m (ok message) ≡ ok m = rw r in
        ok-elim (Forwards s m) (sym e ∙ h) (inl refl)
  ]
  forward-Forwards s m m' raised c h = inl (sym cc)
  forward-Forwards s m m' undefined c h = absurd (cc h)

  handle_message-Forwards :
      (message : Str) (s : Session) (m m' : Messenger J)
      → handle_message J message s m ≡ ok m'
      → Forwards s m m'
  unfolding handle_message
  handle_message-Forwards message s m m' h = elim (Bool-cases (is_control s.permissions)) [
    | inl c ↦
        let e : handle_message J message s m ≡ forward J m (parse_message J message) = rw c in
        forward-Forwards s m m' (parse_message J message) (is_control→eq s.permissions c)
          (sym e ∙ h)
    | inr c ↦
        let e : handle_message J message s m ≡ ok m = rw c in
        ok-elim (Forwards s m) (sym e ∙ h) (inl refl)
  ]

  pub on_read-Forwards :
      (frame : Frame J) (s s' : Session) (m m' : Messenger J)
      → on_read J frame s m ≡ ok (s', m')
      → Drains s s' × Forwards s m m'
  unfolding on_read
  on_read-Forwards closed s s' m m' h =
      ok-elim (λ r. Drains s r.0 × Forwards s m r.1) h (((0, refl), refl), inl refl)
  on_read-Forwards binary_frame s s' m m' h =
      ok-elim (λ r. Drains s r.0 × Forwards s m r.1) h (((0, refl), refl), inl refl)
  on_read-Forwards (text_frame message) s s' m m' h =
      let (k, handled, h') = bind-ok (handle_message J message s m) _ h in
      ok-elim (λ r. Drains s r.0 × Forwards s m r.1) h'
        (((0, refl), refl), handle_message-Forwards message s m k handled)
