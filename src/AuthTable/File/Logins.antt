-- ===== src/AuthTable/File/Logins.antt =====
-- The logins that a file can hold.
use gate_control.Base.{
  ℕ, suc, ◌+◌, ◌-◌, length, List, [], ◌∷◌, none, some, take, ◌==◌, ◌≡◌, refl, sym, ◌∙◌, subst, inl,
  inr, some-elim, Bool-cases, Option-cases, ==_iff,
}
use gate_control.Base.Chain.{bind-some}
use gate_control.Base.Text.{Str, str_eq, find_char, find_from, substr}
use gate_control.Base.Text.Laws.{Lacks, str_eq→eq}
use gate_control.AuthTable.Stoi.{parse_permissions}
use gate_control.AuthTable.Types.{AuthData, AuthTable, find_user}
use gate_control.AuthTable.File.{skip_if, lines, parse_line, open_auth_table_from_file}
use gate_control.AuthTable.File.RoundTrip.{first_entry, open_auth_table_from_file-first}

-- There is no such byte in front of the first one.
take-Lacks : (c : ℕ) (s : Str) (i : ℕ) → find_char c s ≡ some i → Lacks c (take i s)
unfolding find_char
take-Lacks c [] i h = absurd (cc h)
take-Lacks c (x ∷ s) i h = elim (Bool-cases (x == c)) [
  | inl here ↦
      let e : find_char c (x ∷ s) ≡ some 0 = rw here in
      some-elim (λ n. Lacks c (take n (x ∷ s))) (sym e ∙ h) tt
  | inr other ↦ elim (Option-cases (find_char c s)) [
    | inl missing ↦ let e : find_char c (x ∷ s) ≡ none = rw (other, missing) in absurd (cc (e, h))
    | inr (j, later) ↦
        let e : find_char c (x ∷ s) ≡ some (suc j) = rw (other, later) in
        some-elim (λ n. Lacks c (take n (x ∷ s))) (sym e ∙ h)
          ((λ same. cc ((==_iff x c).1 same, other)), take-Lacks c s j later)
  ]
]

parse_line-Lacks :
    (line login : Str) (d : AuthData) → parse_line line ≡ some (login, d) → Lacks b':' login
unfolding parse_line
parse_line-Lacks line login d h = bind-some (find_char b':' line) _ h (λ first found h₁.
    bind-some (find_from b':' line (first + 1)) _ h₁ (λ second _ h₂.
      bind-some (skip_if (length line == second)) _ h₂ (λ _ _ h₃.
        bind-some (find_from b':' line (second + 1)) _ h₃ (λ third _ h₄.
          bind-some (skip_if (length line == third)) _ h₄ (λ _ _ h₅.
            bind-some (parse_permissions (substr line (first + 1) (second - first - 1))) _ h₅
              (λ permissions _ h₆.
                some-elim (λ r. Lacks b':' r.0) h₆ (take-Lacks b':' line first found)))))))

first_entry-colon :
    (login : Str) (ls : List Str) → (Lacks b':' login → ⊥) → first_entry login ls ≡ none
unfolding first_entry
first_entry-colon login [] colon = refl
first_entry-colon login (l ∷ ls) colon = elim (Option-cases (parse_line l)) [
  | inl skipped ↦ rw skipped (first_entry-colon login ls colon)
  | inr ((n, d), accepted) ↦ elim (Bool-cases (str_eq n login)) [
    | inl same ↦
        absurd
          (colon (subst (Lacks b':') (str_eq→eq n login same) (parse_line-Lacks l n d accepted)))
    | inr other ↦ rw (accepted, other) (first_entry-colon login ls colon)
  ]
]

-- Whatever a file holds, the table that is read from it has no login with a colon: a user who was
-- given one cannot be stored.
pub find_user-colon :
    (contents login : Str) (t : AuthTable)
    → open_auth_table_from_file (some contents) ≡ some t
    → (Lacks b':' login → ⊥)
    → find_user login t ≡ none
find_user-colon contents login t opened colon =
    let (u, opened_u, _, reads) = open_auth_table_from_file-first contents in
    some-elim (λ t. find_user login t ≡ none) (sym opened_u ∙ opened)
      (reads login ∙ first_entry-colon login (lines contents) colon)
