-- ===== src/Auth/Digest/Checking.antt =====
-- `check_password` and `get_auth`: who is let in.
use gate_control.Base.{
  true, false, Option, none, some, is_some, ◌≡◌, ◌↔◌, ◌⊎◌, refl, subst, ap, ◌∙◌, arith, Bool-cases,
  Option-cases, inl, inr,
}
use gate_control.Base.Text.{Str, str_eq}
use gate_control.Base.Text.Laws.{str_eq_iff, str_eq_refl, str_eq→eq}
use gate_control.Base.Outcome.{ok}
use gate_control.AuthTable.Types.{AuthData, AuthTable, find_user}
use gate_control.Auth.Digest.{
  DigestAuth, is_valid, parse_digest_auth_field, Verb, http_method_to_str, colon, check_password,
  get_auth,
}

parse_digest_auth_field-is_valid :
    (s : Str) (d : DigestAuth) → parse_digest_auth_field s ≡ some d → is_valid d ≡ true
unfolding parse_digest_auth_field
parse_digest_auth_field-is_valid s d h = ground arith

-- A valid digest with a quality of protection has the two values that go with it.
is_valid-qop :
    (d : DigestAuth)
    → is_valid d ≡ true
    → is_some d.qop ≡ true
    → (is_some d.nc ≡ true) × (is_some d.cnonce ≡ true)
unfolding is_valid
is_valid-qop d h q = ground arith

module _ (H : Str → Str) where
  -- The answer that RFC 7616 asks for, with a quality of protection.
  abbrev expected : DigestAuth → Str → Str → Str → Str → Str → Str → Str
  expected d password method nonce nc cnonce qop = H (
      colon (H (colon d.username (colon d.realm password)))
        (colon nonce (colon nc (colon cnonce (colon qop (H (colon method d.uri)))))))

  pub record IsAnswer (d : DigestAuth) (password method nonce opaque : Str) : Type 0 where
    pub qop : Str
    pub nc : Str
    pub cnonce : Str
    pub opaque_same : d.opaque ≡ some opaque
    pub qop_given : d.qop ≡ some qop
    pub nc_given : d.nc ≡ some nc
    pub cnonce_given : d.cnonce ≡ some cnonce
    pub response_same : d.response ≡ expected d password method nonce nc cnonce qop

  module _ (d : DigestAuth) (password method nonce opaque : Str) (t : AuthTable) where
    check_password-IsAnswer :
        is_some (find_user d.username t) ≡ true
        → IsAnswer d password method nonce opaque
        → check_password H d password method nonce opaque t ≡ ok true
    unfolding check_password
    check_password-IsAnswer known a =
        rw (known, a.opaque_same, a.qop_given, a.nc_given, a.cnonce_given, str_eq_refl opaque)
          (ap ok ((str_eq_iff _ _).1 a.response_same))

    -- Refused, or granted to an answer.
    abbrev Decided : Type 0
    Decided =
        (check_password H d password method nonce opaque t ≡ ok false)
        ⊎ ((check_password H d password method nonce opaque t ≡ ok true)
            × IsAnswer d password method nonce opaque)

    Decided-compared :
        (q n c : Str)
        → is_some (find_user d.username t) ≡ true
        → d.qop ≡ some q
        → d.opaque ≡ some opaque
        → d.nc ≡ some n
        → d.cnonce ≡ some c
        → Decided
    unfolding check_password
    Decided-compared q n c known eq eo en ec =
        let answer = expected d password method nonce n c q in
        let compared : check_password H d password method nonce opaque t
            ≡ ok (str_eq d.response answer) =
          rw (known, eq, eo, en, ec, str_eq_refl opaque) in
        elim (Bool-cases (str_eq d.response answer)) [
          | inr wrong ↦ inl (compared ∙ ap ok wrong)
          | inl right ↦ inr (
            compared ∙ ap ok right,
            record {
              qop = q;
              nc = n;
              cnonce = c;
              opaque_same = eo;
              qop_given = eq;
              nc_given = en;
              cnonce_given = ec;
              response_same = str_eq→eq _ _ right;
            },
          )
        ]

    -- A valid digest has the two values that the check takes out unseen.
    Decided-valid :
        is_valid d ≡ true
        → (q : Str) → is_some (find_user d.username t) ≡ true
        → d.qop ≡ some q
        → d.opaque ≡ some opaque
        → Decided
    Decided-valid valid q known eq eo =
        let (hn, hc) = is_valid-qop d valid (rw eq) in
        elim (Option-cases d.nc) [
          | inl missing ↦ absurd (cc (missing, hn))
          | inr (n, en) ↦ elim (Option-cases d.cnonce) [
            | inl missing ↦ absurd (cc (missing, hc))
            | inr (c, ec) ↦ Decided-compared q n c known eq eo en ec
          ]
        ]

    check_password_cases : is_valid d ≡ true → Decided
    unfolding check_password
    check_password_cases valid = elim (Bool-cases (is_some (find_user d.username t))) [
      | inr unknown ↦ inl (rw unknown)
      | inl known ↦ elim (Option-cases d.qop) [
        | inl missing ↦ inl (rw (known, missing))
        | inr (q, eq) ↦ elim (Option-cases d.opaque) [
          | inl missing ↦ inl (rw (known, eq, missing))
          | inr (o, eo) ↦ elim (Bool-cases (str_eq o opaque)) [
            | inr other ↦ inl (rw (known, eq, eo, other))
            | inl same ↦ Decided-valid valid q known eq (eo ∙ ap some (str_eq→eq o opaque same))
          ]
        ]
      ]
    ]

  -- A user is let in by an `Authorization` field: it holds a digest, for a user of the table, with
  -- the right answer for that user's password and the server's nonce and opaque value.
  pub record IsGranted (s : Str) (method : Verb) (t : AuthTable) (nonce opaque : Str)
      (user : AuthData) : Type 0 where
    pub digest : DigestAuth
    pub parsed : parse_digest_auth_field s ≡ some digest
    pub known : find_user digest.username t ≡ some user
    pub answer : IsAnswer digest user.password (http_method_to_str method) nonce opaque

  module _ (s : Str) (method : Verb) (t : AuthTable) (nonce opaque : Str) where
    get_auth_cases :
        (get_auth H (some s) method t nonce opaque ≡ ok none)
        ⊎ ((user : AuthData) × (get_auth H (some s) method t nonce opaque ≡ ok (some user))
            × IsGranted s method t nonce opaque user)
    unfolding get_auth
    get_auth_cases = elim (Option-cases (parse_digest_auth_field s)) [
      | inl malformed ↦ inl (rw (malformed, get_auth))
      | inr (d, parsed) ↦ elim (Option-cases (find_user d.username t)) [
        | inl unknown ↦ inl (rw (parsed, get_auth, unknown))
        | inr (user, known) ↦
            let valid = parse_digest_auth_field-is_valid s d parsed in
            elim (check_password_cases d user.password (http_method_to_str method) nonce opaque t
              valid) [
                | inl refused ↦ inl (rw (parsed, get_auth, known, refused))
                | inr (granted, answer) ↦ inr (
                  user,
                  rw (parsed, get_auth, known, granted),
                  record { digest = d; parsed = parsed; known = known; answer = answer },
                )
              ]
      ]
    ]

    IsGranted-get_auth :
        (user : AuthData)
        → IsGranted s method t nonce opaque user
        → get_auth H (some s) method t nonce opaque ≡ ok (some user)
    unfolding get_auth
    IsGranted-get_auth user g =
        rw (g.parsed, get_auth, g.known)
          (rw (
            check_password-IsAnswer g.digest user.password (http_method_to_str method) nonce opaque
              t (rw g.known) g.answer))

-- Whatever a client sends, the check of its credentials ends without an exception: no value is
-- taken out of an empty optional.
pub get_auth-ok :
    (H : Str → Str) (authorization : Option Str) (method : Verb) (t : AuthTable)
    (nonce opaque : Str)
    → (r : Option AuthData) × (get_auth H authorization method t nonce opaque ≡ ok r)
get_auth-ok H none method t nonce opaque = (none, unfold get_auth in refl)
get_auth-ok H (some s) method t nonce opaque = elim (get_auth_cases H s method t nonce opaque) [
  | inl refused ↦ (none, refused)
  | inr (user, granted, _) ↦ (some user, granted)
]

-- A user is let in exactly by a field that holds a digest for that login with the right answer.
pub get_auth_iff :
    (H : Str → Str) (s : Str) (method : Verb) (t : AuthTable) (nonce opaque : Str) (user : AuthData)
    → (get_auth H (some s) method t nonce opaque ≡ ok (some user))
      ↔ IsGranted H s method t nonce opaque user
get_auth_iff H s method t nonce opaque user = (
  λ h. elim (get_auth_cases H s method t nonce opaque) [
    | inl refused ↦ absurd (cc (h, refused))
    | inr (user', granted, g) ↦
        let same : user' ≡ user = cc (h, granted) in
        subst (IsGranted H s method t nonce opaque) same g
  ],
  IsGranted-get_auth H s method t nonce opaque user,
)
