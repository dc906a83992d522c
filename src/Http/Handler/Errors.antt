-- ===== src/Http/Handler/Errors.antt =====
-- Where `handle_request` throws, and what it serves without asking for credentials.
use gate_control.Base.{
  true, false, not, ◌&&◌, Option, none, some, ◌≡◌, ◌⊎◌, inl, inr, ap, ◌∙◌, arith, Bool-cases,
  Option-cases,
}
use gate_control.Base.Text.{Str, codes}
use gate_control.Base.Outcome.{ok, raised, ◌>>=◌}
use gate_control.Json.{JsonLib}
use gate_control.AuthTable.Types.{AuthData, AuthorizationType}
use gate_control.Auth.Endpoint.{get_endpoint_permissions}
use gate_control.Auth.Digest.{get_auth}
use gate_control.Auth.Digest.Checking.{get_auth-ok, get_auth_iff}
use gate_control.Http.Target.{is_target_single_level}
use gate_control.Http.Response.{Request, Response, bad_request_response}
use gate_control.Http.Handler.{
  Opened, Server, is_acceptable, is_get, is_head, illegal_target, check_access, respond, answer,
  handle_request,
}
use gate_control.Http.Handler.Routes.{IsUnwritable, DumpEnds, respond_cases}
use gate_control.Http.Handler.Access.{IsPermitted, handle_request-protected}

module _ (J : JsonLib) (H : Str → Str) (open_file : Str → Opened) (s : Server J) where
  -- An open target: the request goes to its route.
  pub handle_request-open :
      (req : Request) (nonce fresh : Str)
      → is_acceptable req ≡ true
      → get_endpoint_permissions req.target ≡ none
      → handle_request J H open_file s req nonce fresh
        ≡ (respond J H open_file s req nonce >>= λ res. ok (res, nonce))
  unfolding handle_request check_access answer
  handle_request-open req nonce fresh acceptable public =
      let method : (not (is_get req.method) && not (is_head req.method)) ≡ false = ground arith in
      let legal : illegal_target req.target ≡ false = ground arith in
      rw (method, legal, public, check_access)

  -- A request that throws: its target ends in "config" and is taken for the list of maps, but no
  -- endpoint protects it, and it carries no credentials of a user.
  abbrev pub IsTrap : Request → Str → Type 0
  IsTrap req nonce =
      (is_acceptable req ≡ true)
      × (get_endpoint_permissions req.target ≡ none)
      × (is_target_single_level req.target (codes "config") ≡ true)
      × (get_auth H req.authorization req.method s.auth_table nonce s.opaque ≡ ok none)

  -- A request for the list of maps, by a user for whom it cannot be written.
  abbrev pub IsUnlistable : Request → Str → Type 0
  IsUnlistable req nonce =
      (is_acceptable req ≡ true)
      × (is_target_single_level req.target (codes "config") ≡ true)
      × ((auth : Option AuthData) × (get_auth H req.authorization req.method s.auth_table nonce
              s.opaque
            ≡ ok auth)
          × IsUnwritable J H open_file s auth)

  -- A response, whatever it is.
  abbrev Ends : Request → Str → Str → Type 0
  Ends req nonce fresh =
      (r : Response × Str) × (handle_request J H open_file s req nonce fresh ≡ ok r)

  Ends-unacceptable :
      (req : Request) (nonce fresh : Str) → is_acceptable req ≡ false → Ends req nonce fresh
  unfolding handle_request
  Ends-unacceptable req nonce fresh h =
      elim (Bool-cases (not (is_get req.method) && not (is_head req.method))) [
        | inl other ↦ ((bad_request_response (codes "Unknown HTTP method") req, nonce), rw other)
        | inr method ↦
            let illegal : illegal_target req.target ≡ true = ground arith in
            (
              (bad_request_response (codes "Illegal request target") req, nonce),
              rw (method, illegal),
            )
      ]

  IsPermitted-get_auth :
      (p : AuthorizationType) (req : Request) (nonce : Str)
      → (permitted : IsPermitted J H open_file s p req nonce)
      → get_auth H req.authorization req.method s.auth_table nonce s.opaque
        ≡ ok (some permitted.user)
  IsPermitted-get_auth p req nonce permitted =
      ap (λ a. get_auth H a req.method s.auth_table nonce s.opaque) permitted.sent
      ∙ (get_auth_iff H permitted.field req.method s.auth_table nonce s.opaque permitted.user).1
          permitted.granted

  respond-throws :
      (req : Request) (nonce fresh : Str)
      → handle_request J H open_file s req nonce fresh
        ≡ (respond J H open_file s req nonce >>= λ res. ok (res, nonce))
      → respond J H open_file s req nonce ≡ raised
      → handle_request J H open_file s req nonce fresh ≡ raised
  respond-throws req nonce fresh e thrown = e ∙ ap (λ o. o >>= λ res. ok (res, nonce)) thrown

  abbrev pub Answers : Request → Str → Str → Type 0
  Answers req nonce fresh =
      ((IsTrap req nonce ⊎ IsUnlistable req nonce)
        × (handle_request J H open_file s req nonce fresh ≡ raised))
      ⊎ Ends req nonce fresh

  module _ (dump_ends : DumpEnds J H open_file s) where
    Answers-protected :
        (p : AuthorizationType) (req : Request) (nonce fresh : Str)
        → is_acceptable req ≡ true
        → get_endpoint_permissions req.target ≡ some p
        → Answers req nonce fresh
    Answers-protected p req nonce fresh acceptable protected =
        elim (handle_request-protected J H open_file s p req nonce fresh protected) [
          | inl (_, (res, e, _)) ↦ inr ((res, nonce), e)
          | inr (inl (r, e, _)) ↦ inr (r, e)
          | inr (inr (permitted, e)) ↦
              let checked = IsPermitted-get_auth p req nonce permitted in
              elim (respond_cases J H open_file s dump_ends req nonce _ checked) [
                | inl (_, inl nobody, _) ↦ absurd (cc nobody)
                | inl (config, inr unwritable, thrown) ↦ inl (
                  inr (acceptable, config, (_, checked, unwritable)),
                  respond-throws req nonce fresh e thrown,
                )
                | inr (res, ends) ↦ inr ((res, nonce), e ∙ ap (λ o. o >>= λ r. ok (r, nonce)) ends)
              ]
        ]

    Answers-public :
        (req : Request) (nonce fresh : Str)
        → is_acceptable req ≡ true
        → get_endpoint_permissions req.target ≡ none
        → Answers req nonce fresh
    Answers-public req nonce fresh acceptable public =
        let (auth, checked) =
          get_auth-ok H req.authorization req.method s.auth_table nonce s.opaque in
        let e = handle_request-open req nonce fresh acceptable public in
        elim (respond_cases J H open_file s dump_ends req nonce auth checked) [
          | inl (config, inl nobody, thrown) ↦ inl (
            inl (acceptable, public, config, checked ∙ ap ok nobody),
            respond-throws req nonce fresh e thrown,
          )
          | inl (config, inr unwritable, thrown) ↦ inl (
            inr (acceptable, config, (auth, checked, unwritable)),
            respond-throws req nonce fresh e thrown,
          )
          | inr (res, ends) ↦ inr ((res, nonce), e ∙ ap (λ o. o >>= λ r. ok (r, nonce)) ends)
        ]

    -- Where the JSON library writes a value or throws, every request gets a response, but for two
    -- classes, whose handling throws: an unprotected target that is taken for the list of maps,
    -- without the credentials of a user; and a request for the list of maps with the credentials
    -- of a user for whom the library cannot write the list.
    pub handle_request_cases :
        (req : Request) (nonce fresh : Str)
        → ((IsTrap req nonce ⊎ IsUnlistable req nonce)
            × (handle_request J H open_file s req nonce fresh ≡ raised))
          ⊎ ((r : Response × Str) × (handle_request J H open_file s req nonce fresh ≡ ok r))
    handle_request_cases req nonce fresh = elim (Bool-cases (is_acceptable req)) [
      | inr refused ↦ inr (Ends-unacceptable req nonce fresh refused)
      | inl acceptable ↦ elim (Option-cases (get_endpoint_permissions req.target)) [
        | inr (p, protected) ↦ Answers-protected p req nonce fresh acceptable protected
        | inl public ↦ Answers-public req nonce fresh acceptable public
      ]
    ]
