-- ===== src/Configurator/Prompts.antt =====
-- What the prompts for a line take from the input.
use gate_control.Base.{
  Bool, true, false, not, List, [], ◌∷◌, ◌++◌, some, is_some, ◌≡◌, inl, inr, refl, sym, ap, ◌∙◌,
  some-elim, Bool-cases, Option-cases, All,
}
use gate_control.Base.Text.{Str}
use gate_control.AuthTable.Stoi.{parse_permissions}
use gate_control.AuthTable.Types.{AuthorizationType}
use gate_control.Configurator.{ask, ask_permissions}

-- The first of the lines that is not bad, and the lines behind it.
abbrev pub FirstGood : (Str → Bool) → List Str → Str → List Str → Type 0
FirstGood is_bad lines line rest =
    (skipped : List Str) × (lines ≡ skipped ++ line ∷ rest)
    × All (λ l. is_bad l ≡ true) skipped
    × (is_bad line ≡ false)

FirstGood-skip :
    (is_bad : Str → Bool) (l line : Str) (lines rest : List Str)
    → is_bad l ≡ true
    → FirstGood is_bad lines line rest
    → FirstGood is_bad (l ∷ lines) line rest
FirstGood-skip is_bad l line lines rest bad (skipped, e, all, good) =
    (l ∷ skipped, ap (◌∷◌ l) e, (bad, all), good)

-- A prompt takes the first good line.
pub ask-FirstGood :
    (is_bad : Str → Bool) (lines : List Str) (line : Str) (rest : List Str)
    → ask is_bad lines ≡ some (line, rest)
    → FirstGood is_bad lines line rest
unfolding ask
ask-FirstGood is_bad [] line rest h = absurd (cc h)
ask-FirstGood is_bad (l ∷ lines) line rest h = elim (Bool-cases (is_bad l)) [
  | inl bad ↦
      FirstGood-skip is_bad l line lines rest bad
        (ask-FirstGood is_bad lines line rest (sym (rw bad refl) ∙ h))
  | inr good ↦
      let e : ask is_bad (l ∷ lines) ≡ some (l, lines) = rw good in
      some-elim (λ r. FirstGood is_bad (l ∷ lines) r.0 r.1) (sym e ∙ h) ([], refl, tt, good)
]

abbrev pub is_no_permission : Str → Bool
is_no_permission line = not (is_some (parse_permissions line))

-- The first line that is a category of permissions, which it is, and the lines behind it.
abbrev pub FirstPermissions : List Str → AuthorizationType → List Str → Type 0
FirstPermissions lines p rest =
    (line : Str) × FirstGood is_no_permission lines line rest × (parse_permissions line ≡ some p)

pub ask_permissions-FirstPermissions :
    (lines : List Str) (p : AuthorizationType) (rest : List Str)
    → ask_permissions lines ≡ some (p, rest)
    → FirstPermissions lines p rest
unfolding ask_permissions
ask_permissions-FirstPermissions [] p rest h = absurd (cc h)
ask_permissions-FirstPermissions (l ∷ lines) p rest h = elim (Option-cases (parse_permissions l)) [
  | inl none_read ↦
      let e : ask_permissions (l ∷ lines) ≡ ask_permissions lines = rw none_read in
      let (line, good, is_p) = ask_permissions-FirstPermissions lines p rest (sym e ∙ h) in
      (line, FirstGood-skip is_no_permission l line lines rest (rw none_read) good, is_p)
  | inr (q, read) ↦
      let e : ask_permissions (l ∷ lines) ≡ some (q, lines) = rw read in
      some-elim (λ r. FirstPermissions (l ∷ lines) r.0 r.1) (sym e ∙ h)
        (l, ([], refl, tt, rw read), read)
]
