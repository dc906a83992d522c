-- ===== src/Http/Handler/Access.antt =====
-- A protected page is served to those only who may see it.
use gate_control.Base.{
  ◌≤◌, false, not, ◌&&◌, Option, none, some, ◌≡◌, ◌⊎◌, inl, inr, refl, arith, Bool-cases,
}
use gate_control.Base.Text.{Str, codes}
use gate_control.Base.Outcome.{Outcome, ok, ◌>>=◌}
use gate_control.Json.{JsonLib}
use gate_control.AuthTable.Types.{
  AuthData, AuthorizationType, blocked, view, control, rank, lt_permissions,
}
use gate_control.Auth.Endpoint.{get_endpoint_permissions}
use gate_control.Auth.Digest.{get_auth}
use gate_control.Auth.Digest.Checking.{IsGranted, get_auth-ok, get_auth_iff}
use gate_control.Http.Response.{
  Request, Response, bad_request, unauthorized, forbidden, forbidden_response,
  unauthorized_response, bad_request_response,
}
use gate_control.Http.Handler.{
  Opened, Server, is_acceptable, is_get, is_head, illegal_target, check_user, check_credentials,
  check_permissions, check_access, respond, answer, handle_request,
}

module _ (J : JsonLib) (H : Str → Str) (open_file : Str → Opened) (s : Server J) where
  -- The request carries the credentials of a user of the table whose permissions suffice.
  pub record IsPermitted (p : AuthorizationType) (req : Request) (nonce : Str) : Type 0 where
    pub field : Str
    pub user : AuthData
    pub sent : req.authorization ≡ some field
    pub granted : IsGranted H field req.method s.auth_table nonce s.opaque user
    pub suffices : rank p ≤ rank user.permissions

  -- What ends a request early: a 401 with the new nonce, or a 403 with the old one.
  abbrev pub Refuses : Str → Str → Response × Str → Type 0
  Refuses nonce fresh r =
      ((r.0.status ≡ unauthorized) × (r.1 ≡ fresh)) ⊎ ((r.0.status ≡ forbidden) × (r.1 ≡ nonce))

  check_user_cases :
      (p : AuthorizationType) (req : Request) (nonce fresh field : Str) (auth : Option AuthData)
      → req.authorization ≡ some field
      → get_auth H (some field) req.method s.auth_table nonce s.opaque ≡ ok auth
      → ((check_user J H open_file s p req nonce fresh auth ≡ none) × IsPermitted p req nonce)
        ⊎ ((r : Response × Str) × (check_user J H open_file s p req nonce fresh auth ≡ some r)
            × Refuses nonce fresh r)
  unfolding check_user unauthorized_response forbidden_response
  check_user_cases p req nonce fresh field none sent checked =
      inr (unauthorized_response fresh s.opaque req false, refl, inl (refl, refl))
  check_user_cases p req nonce fresh field (some user) sent checked =
      elim (Bool-cases (lt_permissions user.permissions p)) [
        | inl low ↦ inr ((forbidden_response req, nonce), rw low, inr (refl, refl))
        | inr enough ↦ inl (
          rw enough,
          record {
            field = field;
            user = user;
            sent = sent;
            granted = (get_auth_iff H field req.method s.auth_table nonce s.opaque user).0 checked;
            suffices = ground arith;
          },
        )
      ]

  -- The checks pass a permitted request on, and refuse any other.
  Checked : AuthorizationType → Request → Str → Str → Outcome (Option (Response × Str)) → Type 0
  Checked p req nonce fresh o =
      ((o ≡ ok none) × IsPermitted p req nonce)
      ⊎ ((r : Response × Str) × (o ≡ ok (some r)) × Refuses nonce fresh r)

  check_credentials_cases :
      (p : AuthorizationType) (req : Request) (nonce fresh : Str) (authorization : Option Str)
      → req.authorization ≡ authorization
      → Checked p req nonce fresh
          (check_credentials J H open_file s p req nonce fresh authorization)
  unfolding Checked check_credentials unauthorized_response
  check_credentials_cases p req nonce fresh none sent =
      inr (unauthorized_response fresh s.opaque req false, refl, inl (refl, refl))
  check_credentials_cases p req nonce fresh (some field) sent =
      let (auth, checked) = get_auth-ok H (some field) req.method s.auth_table nonce s.opaque in
      elim (check_user_cases p req nonce fresh field auth sent checked) [
        | inl (passed, permitted) ↦ inl (rw (checked, passed), permitted)
        | inr (r, refused, refuses) ↦ inr (r, rw (checked, refused), refuses)
      ]

  check_permissions_cases :
      (p : AuthorizationType) (req : Request) (nonce fresh : Str)
      → Checked p req nonce fresh (check_permissions J H open_file s p req nonce fresh)
  unfolding Checked check_permissions forbidden_response
  check_permissions_cases blocked req nonce fresh =
      inr ((forbidden_response req, nonce), refl, inr (refl, refl))
  check_permissions_cases view req nonce fresh =
      check_credentials_cases view req nonce fresh req.authorization refl
  check_permissions_cases control req nonce fresh =
      check_credentials_cases control req nonce fresh req.authorization refl

  -- How a request to a protected endpoint can end, once its method and target are accepted.
  check_access_cases :
      (p : AuthorizationType) (req : Request) (nonce fresh : Str)
      → get_endpoint_permissions req.target ≡ some p
      → Checked p req nonce fresh (check_access J H open_file s req nonce fresh)
  unfolding check_access
  check_access_cases p req nonce fresh protected =
      rw (protected, check_access) (check_permissions_cases p req nonce fresh)

  Checked-answer :
      (p : AuthorizationType) (req : Request) (nonce fresh : Str)
      (o : Outcome (Option (Response × Str)))
      → Checked p req nonce fresh o
      → (IsPermitted p req nonce
          × ((o >>= answer J H open_file s req nonce)
              ≡ (respond J H open_file s req nonce >>= λ res. ok (res, nonce))))
        ⊎ ((r : Response × Str) × ((o >>= answer J H open_file s req nonce) ≡ ok r)
            × Refuses nonce fresh r)
  unfolding Checked answer
  Checked-answer p req nonce fresh o (inl (passed, permitted)) = inl (permitted, rw passed)
  Checked-answer p req nonce fresh o (inr (r, refused, refuses)) = inr (r, rw refused, refuses)

  -- A request for an endpoint that wants permissions has one of three ends. With another method
  -- than GET and HEAD, or with an illegal target, it is a 400. Without the credentials of a user
  -- with those permissions it is a 401, which replaces the nonce, or a 403. Otherwise it carries
  -- such credentials, and the response is that of the route.
  pub handle_request-protected :
      (p : AuthorizationType) (req : Request) (nonce fresh : Str)
      → get_endpoint_permissions req.target ≡ some p
      → ((is_acceptable req ≡ false)
          × ((res : Response) × (handle_request J H open_file s req nonce fresh ≡ ok (res, nonce))
              × (res.status ≡ bad_request)))
        ⊎ (((r : Response × Str) × (handle_request J H open_file s req nonce fresh ≡ ok r)
              × Refuses nonce fresh r)
            ⊎ (IsPermitted p req nonce
                × (handle_request J H open_file s req nonce fresh
                    ≡ (respond J H open_file s req nonce >>= λ res. ok (res, nonce)))))
  unfolding handle_request bad_request_response
  handle_request-protected p req nonce fresh protected =
      elim (Bool-cases (not (is_get req.method) && not (is_head req.method))) [
        | inl other ↦
            inl (
              ground arith,
              (bad_request_response (codes "Unknown HTTP method") req, rw other, refl),
            )
        | inr method ↦ elim (Bool-cases (illegal_target req.target)) [
          | inl illegal ↦ inl (
            ground arith,
            (bad_request_response (codes "Illegal request target") req, rw (method, illegal), refl),
          )
          | inr legal ↦
              elim (Checked-answer p req nonce fresh _
                (check_access_cases p req nonce fresh protected)) [
                  | inl (permitted, e) ↦ inr (inr (permitted, rw (method, legal) e))
                  | inr (r, e, refuses) ↦ inr (inl (r, rw (method, legal) e, refuses))
                ]
        ]
      ]
