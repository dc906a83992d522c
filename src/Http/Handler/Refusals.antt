-- ===== src/Http/Handler/Refusals.antt =====
-- The responses that end a request before its route carry no file.
use gate_control.Base.{
  Option, none, some, ◌≡◌, inl, inr, refl, sym, ◌∙◌, some-elim, Bool-cases, Option-cases,
}
use gate_control.Base.Text.{Str}
use gate_control.Base.Outcome.{ok, bind-ok, ok-elim}
use gate_control.Json.{JsonLib}
use gate_control.AuthTable.Types.{AuthData, AuthorizationType, lt_permissions}
use gate_control.Auth.Endpoint.{get_endpoint_permissions}
use gate_control.Auth.Digest.{get_auth}
use gate_control.Http.Response.{Request, Response, file, forbidden_response, unauthorized_response}
use gate_control.Http.Handler.{
  Opened, Server, is_blocked, check_user, check_credentials, check_permissions, check_access,
}

abbrev pub HasNoFile : Response → Type 0
HasNoFile res = (path : Str) → res.body ≡ file path → ⊥

module _ (J : JsonLib) (H : Str → Str) (open_file : Str → Opened) (s : Server J) where
  check_user-HasNoFile :
      (p : AuthorizationType) (req : Request) (nonce fresh : Str) (auth : Option AuthData)
      (r : Response × Str)
      → check_user J H open_file s p req nonce fresh auth ≡ some r
      → HasNoFile r.0
  unfolding check_user unauthorized_response forbidden_response
  check_user-HasNoFile p req nonce fresh none r h = some-elim (λ r. HasNoFile r.0) h (λ q e. cc e)
  check_user-HasNoFile p req nonce fresh (some user) r h =
      elim (Bool-cases (lt_permissions user.permissions p)) [
        | inl low ↦
            let e : check_user J H open_file s p req nonce fresh (some user)
                ≡ some (forbidden_response req, nonce) =
              rw low in
            some-elim (λ r. HasNoFile r.0) (sym e ∙ h) (λ q e. cc e)
        | inr enough ↦
            let e : check_user J H open_file s p req nonce fresh (some user) ≡ none = rw enough in
            absurd (cc (e, h))
      ]

  check_credentials-HasNoFile :
      (p : AuthorizationType) (req : Request) (nonce fresh : Str) (authorization : Option Str)
      (r : Response × Str)
      → check_credentials J H open_file s p req nonce fresh authorization ≡ ok (some r)
      → HasNoFile r.0
  unfolding check_credentials unauthorized_response
  check_credentials-HasNoFile p req nonce fresh none r h =
      some-elim (λ r. HasNoFile r.0) (ok-elim (λ o. o ≡ some r) (sym h) refl) (λ q e. cc e)
  check_credentials-HasNoFile p req nonce fresh (some field) r h =
      let (auth, _, h₁) =
        bind-ok (get_auth H (some field) req.method s.auth_table nonce s.opaque) _ h in
      check_user-HasNoFile p req nonce fresh auth r (ok-elim (λ o. o ≡ some r) (sym h₁) refl)

  check_permissions-HasNoFile :
      (p : AuthorizationType) (req : Request) (nonce fresh : Str) (r : Response × Str)
      → check_permissions J H open_file s p req nonce fresh ≡ ok (some r)
      → HasNoFile r.0
  unfolding check_permissions forbidden_response
  check_permissions-HasNoFile p req nonce fresh r h = elim (Bool-cases (is_blocked p)) [
    | inl b ↦
        let e : check_permissions J H open_file s p req nonce fresh
            ≡ ok (some (forbidden_response req, nonce)) =
          rw b in
        some-elim (λ r. HasNoFile r.0) (ok-elim (λ o. o ≡ some r) (sym (sym e ∙ h)) refl)
          (λ q e. cc e)
    | inr b ↦
        check_credentials-HasNoFile p req nonce fresh req.authorization r (sym (rw b refl) ∙ h)
  ]

  -- A check that ends a request sends no file.
  pub check_access-HasNoFile :
      (req : Request) (nonce fresh : Str) (r : Response × Str)
      → check_access J H open_file s req nonce fresh ≡ ok (some r)
      → HasNoFile r.0
  unfolding check_access
  check_access-HasNoFile req nonce fresh r h =
      elim (Option-cases (get_endpoint_permissions req.target)) [
        | inl free ↦
            let e : check_access J H open_file s req nonce fresh ≡ ok none =
              rw (free, check_access) in
            absurd (cc (e, h))
        | inr (p, protected) ↦
            let e : check_access J H open_file s req nonce fresh
                ≡ check_permissions J H open_file s p req nonce fresh =
              rw (protected, check_access) in
            check_permissions-HasNoFile p req nonce fresh r (sym e ∙ h)
      ]
