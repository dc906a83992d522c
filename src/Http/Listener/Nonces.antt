-- ===== src/Http/Listener/Nonces.antt =====
-- Which nonce the sessions of an address have.
use gate_control.Base.{
  Bool, true, false, [], ◌∷◌, Option, none, some, if◌then◌else◌, ◌≡◌, ◌↔◌, inl, inr, refl, sym, ap,
  ◌∙◌, Bool-cases, Option-cases,
}
use gate_control.Base.Text.{Str}
use gate_control.Base.Outcome.{ok, raised}
use gate_control.Http.Session.{new_http_session}
use gate_control.Http.Listener.{
  Accepted, failed, connected, Nonces, nonce_of, renew, add_nonce, session_with, on_accept,
}

module _ {ℓ} (Address : Type ℓ) (same : Address → Address → Bool)
    (same_iff : (a b : Address) → (same a b ≡ true) ↔ (a ≡ b)) where
  -- The nonce that an address has, or else a new one.
  abbrev pub or_fresh : Str → Option Str → Str
  or_fresh fresh none = fresh
  or_fresh fresh (some nonce) = nonce

  nonce_of-add_nonce :
      (a b : Address) (fresh : Str) (t : Nonces Address same)
      → nonce_of Address same b (add_nonce Address same a fresh t) ≡ (
          if same a b
          then some (or_fresh fresh (nonce_of Address same a t))
          else nonce_of Address same b t)
  unfolding add_nonce nonce_of
  nonce_of-add_nonce a b fresh t = elim (Option-cases (nonce_of Address same a t)) [
    | inl new ↦ rw new
    | inr (nonce, old) ↦ elim (Bool-cases (same a b)) [
      | inl eq ↦
          rw (old, eq) (ap (λ x. nonce_of Address same x t) (sym ((same_iff a b).0 eq)) ∙ old)
      | inr other ↦ rw (old, other)
    ]
  ]

  -- What comes of an accept: nothing after an error; an exception where the socket has no remote
  -- endpoint; and else a session.
  abbrev pub IsAccepted : Accepted Address same → Str → Nonces Address same → Type ℓ
  IsAccepted failed fresh t = on_accept Address same failed fresh t ≡ ok none
  IsAccepted (connected none) fresh t = on_accept Address same (connected none) fresh t ≡ raised
  IsAccepted (connected (some a)) fresh t =
      (t' : Nonces Address same) × (on_accept Address same (connected (some a)) fresh t
        ≡ ok (some (t', new_http_session (or_fresh fresh (nonce_of Address same a t)))))
      × ((b : Address)
          → nonce_of Address same b t' ≡ (
              if same a b
              then some (or_fresh fresh (nonce_of Address same a t))
              else nonce_of Address same b t))

  -- After an error of the accept no session is made, without an exception; a socket without a
  -- remote endpoint gives an exception. Every other connection gets a session, without an
  -- exception: the session has the nonce of its address, or a fresh one at the first connection of
  -- the address, and the nonces of all other addresses stay.
  pub on_accept-IsAccepted :
      (accepted : Accepted Address same) (fresh : Str) (t : Nonces Address same)
      → IsAccepted accepted fresh t
  unfolding on_accept
  on_accept-IsAccepted failed fresh t = refl
  on_accept-IsAccepted (connected none) fresh t = refl
  on_accept-IsAccepted (connected (some a)) fresh t =
      let self : same a a ≡ true = (same_iff a a).1 refl in
      let found : nonce_of Address same a (add_nonce Address same a fresh t)
          ≡ some (or_fresh fresh (nonce_of Address same a t)) =
        nonce_of-add_nonce a a fresh t ∙ rw self in
      (
        add_nonce Address same a fresh t,
        ap (session_with Address same (add_nonce Address same a fresh t)) found,
        λ b. nonce_of-add_nonce a b fresh t,
      )

  abbrev pub replaced : Str → Option Str → Option Str
  replaced fresh none = none
  replaced fresh (some nonce) = some fresh

  -- A session that replaces the nonce does so for its own address, if that is known, and for no
  -- other.
  pub nonce_of-renew :
      (a b : Address) (fresh : Str) (t : Nonces Address same)
      → nonce_of Address same b (renew Address same a fresh t) ≡ (
          if same a b
          then replaced fresh (nonce_of Address same a t)
          else nonce_of Address same b t)
  unfolding nonce_of renew
  nonce_of-renew a b fresh [] = elim (Bool-cases (same a b)) [
    | inl eq ↦ rw eq
    | inr other ↦ rw other
  ]
  nonce_of-renew a b fresh ((c, nonce) ∷ t) = elim (Bool-cases (same c a)) [
    | inl here ↦
        let e : same c b ≡ same a b = ap (λ x. same x b) ((same_iff c a).0 here) in
        rw (here, e) (elim (Bool-cases (same a b)) [ inl eq ↦ rw eq | inr other ↦ rw other ])
    | inr there ↦ rw there (elim (Bool-cases (same a b)) [
      | inl eq ↦
          let e : same c b ≡ false = sym (ap (same c) ((same_iff a b).0 eq)) ∙ there in
          rw (e, eq) (nonce_of-renew a b fresh t ∙ rw eq)
      | inr other ↦
          rw other
            (ap (λ o. if same c b then some nonce else o) (nonce_of-renew a b fresh t ∙ rw other))
    ])
  ]
