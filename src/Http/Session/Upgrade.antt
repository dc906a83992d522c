-- ===== src/Http/Session/Upgrade.antt =====
-- src/http_session.cpp: the branch of `on_read` for a WebSocket upgrade, and who gets a session by
-- it.
use gate_control.Base.{
  true, false, Option, none, some, ◌≡◌, ◌≢◌, ◌⊎◌, inl, inr, refl, sym, ap, ◌∙◌, Bool-cases,
  Option-cases,
}
use gate_control.Base.Text.{Str, str_eq}
use gate_control.Base.Text.Laws.{str_eq_iff, str_eq→eq}
use gate_control.Base.Outcome.{Outcome, ok, raised, ◌>>=◌}
use gate_control.AuthTable.Types.{AuthData, AuthTable, AuthorizationType, blocked, view, control}
use gate_control.Auth.Digest.{DigestAuth, parse_digest_auth_field, get_auth}
use gate_control.Auth.Digest.Checking.{IsGranted, get_auth_iff, get_auth-ok}
use gate_control.Socket.{Session, new_session, is_blocked, is_alive, accept, do_accept}
use gate_control.Http.Response.{Request, Response, unauthorized_response}
use gate_control.Http.Session.{refusal}

-- How an upgrade ends: a response and the nonce after it, or a session, which `add_session` takes.
pub data Upgraded : Type 0 where
  refused : Response × Str → Upgraded
  joined : Session → Upgraded

is_blocked→eq : (p : AuthorizationType) → is_blocked p ≡ true → p ≡ blocked
is_blocked→eq blocked h = refl
is_blocked→eq view h = absurd (cc h)
is_blocked→eq control h = absurd (cc h)

module _ (H : Str → Str) (auth_table : AuthTable) (opaque : Str) where
  abbrev pub join : Request → Str → Option (Response × Str) → Outcome Upgraded
  join req nonce (some res) = ok (refused res)
  join req nonce none =
      do_accept H req.authorization req.method auth_table nonce opaque new_session >>= λ s.
      ok (joined s)

  unfoldable pub on_upgrade : Request → Str → Str → Outcome Upgraded
  unfolding refusal
  on_upgrade req nonce fresh = refusal opaque req nonce fresh >>= join req nonce

  module _ (req : Request) (nonce fresh : Str) where
    -- The session of a user that is let in and not blocked lives; any other is dead at once.
    abbrev pub IsJoined : Str → Session → Type 0
    IsJoined field s =
        ((is_alive s ≡ false)
          × ((user : AuthData)
              → IsGranted H field req.method auth_table nonce opaque user
              → user.permissions ≡ blocked))
        ⊎ ((user : AuthData) × IsGranted H field req.method auth_table nonce opaque user
            × (user.permissions ≢ blocked)
            × (s ≡ record new_session { permissions = user.permissions; is_accepting = true }))

    abbrev pub IsUpgraded : Str → Type 0
    IsUpgraded field =
        ((parse_digest_auth_field field ≡ none)
          × (on_upgrade req nonce fresh
              ≡ ok (refused (unauthorized_response fresh opaque req false))))
        ⊎ ((d : DigestAuth) × (parse_digest_auth_field field ≡ some d)
            × (((d.nonce ≢ nonce)
                  × (on_upgrade req nonce fresh
                      ≡ ok (refused (unauthorized_response fresh opaque req true))))
                ⊎ ((d.nonce ≡ nonce)
                    × ((s : Session) × (on_upgrade req nonce fresh ≡ ok (joined s))
                        × IsJoined field s))))

    accept-IsJoined :
        (field : Str) (auth : Option AuthData)
        → get_auth H (some field) req.method auth_table nonce opaque ≡ ok auth
        → IsJoined field (accept auth new_session)
    unfolding is_alive
    accept-IsJoined field none checked = inl (
      refl,
      λ user granted.
          absurd (
            cc (checked, (get_auth_iff H field req.method auth_table nonce opaque user).1 granted)),
    )
    accept-IsJoined field (some user) checked = elim (Bool-cases (is_blocked user.permissions)) [
      | inl b ↦ rw b (
          inl (
            refl,
            λ other granted.
                let e : ok (some user) ≡ ok (some other) =
                  sym checked
                  ∙ (get_auth_iff H field req.method auth_table nonce opaque other).1 granted in
                let same : user ≡ other = cc in
                sym (ap (λ u. u.permissions) same) ∙ is_blocked→eq user.permissions b,
          ))
      | inr b ↦ rw b (
          inr (
            user,
            (get_auth_iff H field req.method auth_table nonce opaque user).0 checked,
            λ e. cc (ap is_blocked e, b),
            refl,
          ))
    ]

    IsUpgraded-nonce :
        (field : Str) (d : DigestAuth)
        → req.authorization ≡ some field
        → parse_digest_auth_field field ≡ some d
        → d.nonce ≡ nonce
        → (s : Session) × (on_upgrade req nonce fresh ≡ ok (joined s)) × IsJoined field s
    unfolding on_upgrade refusal do_accept
    IsUpgraded-nonce field d there parsed same =
        let (auth, checked) = get_auth-ok H (some field) req.method auth_table nonce opaque in
        let eq : str_eq d.nonce nonce ≡ true = (str_eq_iff d.nonce nonce).1 same in
        (
          accept auth new_session,
          rw (there, parsed, eq, checked),
          accept-IsJoined field auth checked,
        )

    -- An upgrade without an `Authorization` field throws. With one that is no digest it is a 401,
    -- with a digest for another nonce than the server's a 401 that says so, and otherwise there is
    -- a session, which lives if and only if the credentials are those of a user who is not blocked.
    pub on_upgrade_cases :
        ((req.authorization ≡ none) × (on_upgrade req nonce fresh ≡ raised))
        ⊎ ((field : Str) × (req.authorization ≡ some field) × IsUpgraded field)
    unfolding on_upgrade refusal
    on_upgrade_cases = elim (Option-cases req.authorization) [
      | inl missing ↦ inl (missing, rw missing)
      | inr (field, there) ↦ inr (
        field,
        there,
        elim (Option-cases (parse_digest_auth_field field)) [
          | inl malformed ↦ inl (malformed, rw (there, malformed))
          | inr (d, parsed) ↦ elim (Bool-cases (str_eq d.nonce nonce)) [
            | inl same ↦
                let e : d.nonce ≡ nonce = str_eq→eq d.nonce nonce same in
                inr (d, parsed, inr (e, IsUpgraded-nonce field d there parsed e))
            | inr other ↦ inr (
              d,
              parsed,
              inl (λ e. cc ((str_eq_iff d.nonce nonce).1 e, other), rw (there, parsed, other)),
            )
          ]
        ],
      )
    ]
