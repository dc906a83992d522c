-- ===== src/Configurator/Menu/Reads.antt =====
-- The questions read on, and leave a part of the input.
use gate_control.Base.{
  ◌≤◌, Bool, true, false, not, ◌&&◌, List, [], ◌∷◌, Option, none, some, ◌≡◌, refl, sym, ap, ◌∙◌,
  inl, inr, arith, some-elim, Bool-cases, Option-cases,
}
use gate_control.Base.Chain.{bind-some}
use gate_control.Base.Text.{Str, codes, starts_with}
use gate_control.AuthTable.Types.{AuthTable}
use gate_control.AuthTable.File.{open_auth_table_from_file}
use gate_control.AuthTable.Stoi.{parse_permissions}
use gate_control.Configurator.{
  State, to_lowercase, ask, ask_permissions, get_confirmation, next_line, set_file_path, is_empty,
  is_taken, add_to, delete_from, with_table, on_table,
}
use gate_control.Configurator.Menu.{weight}

-- A read of lines leaves a part of them.
abbrev pub Reads {ℓ} : {A : Type ℓ} → (List Str → Option (A × List Str)) → Type ℓ
Reads {A = A} f =
    (lines rest : List Str) (a : A) → f lines ≡ some (a, rest) → weight rest ≤ weight lines

ask-Reads : (is_bad : Str → Bool) → Reads (ask is_bad)
unfolding ask
ask-Reads is_bad [] rest a h = absurd (cc h)
ask-Reads is_bad (line ∷ lines) rest a h = elim (Bool-cases (is_bad line)) [
  | inl t ↦
      let e : ask is_bad (line ∷ lines) ≡ ask is_bad lines = rw t refl in
      let le = ask-Reads is_bad lines rest a (sym e ∙ h) in omega arith
  | inr f ↦
      let e : ask is_bad (line ∷ lines) ≡ some (line, lines) = rw f refl in
      some-elim (λ r. weight r.1 ≤ weight (line ∷ lines)) (sym e ∙ h) (omega arith)
]

ask_permissions-Reads : Reads ask_permissions
unfolding ask_permissions
ask_permissions-Reads [] rest a h = absurd (cc h)
ask_permissions-Reads (line ∷ lines) rest a h = elim (Option-cases (parse_permissions line)) [
  | inl n ↦
      let e : ask_permissions (line ∷ lines) ≡ ask_permissions lines = rw n refl in
      let le = ask_permissions-Reads lines rest a (sym e ∙ h) in omega arith
  | inr (p, s) ↦
      let e : ask_permissions (line ∷ lines) ≡ some (p, lines) = rw s refl in
      some-elim (λ r. weight r.1 ≤ weight (line ∷ lines)) (sym e ∙ h) (omega arith)
]

next_line-le : (lines : List Str) → weight (next_line lines).1 ≤ weight lines
next_line-le [] = omega arith
next_line-le (line ∷ lines) = omega arith

get_confirmation-Reads : Reads get_confirmation
unfolding get_confirmation
get_confirmation-Reads [] rest a h = absurd (cc h)
get_confirmation-Reads (line ∷ lines) rest a h =
    let yes_given = starts_with (to_lowercase line) (codes "y") in
    let no_given = starts_with (to_lowercase line) (codes "n") in
    elim (Bool-cases (not yes_given && not no_given)) [
      | inl t ↦
          let e : get_confirmation (line ∷ lines) ≡ get_confirmation lines = rw t refl in
          let le = get_confirmation-Reads lines rest a (sym e ∙ h) in omega arith
      | inr f ↦
          let e : get_confirmation (line ∷ lines) ≡ some (yes_given, lines) = rw f refl in
          some-elim (λ r. weight r.1 ≤ weight (line ∷ lines)) (sym e ∙ h) (omega arith)
    ]

pub add_to-Reads : (t : AuthTable) → Reads (λ lines. add_to lines t)
unfolding add_to
add_to-Reads t lines rest t' h =
    bind-some (ask (is_taken t) lines) _ h (λ (login, lines₁) asked_login h₁.
      bind-some (ask is_empty lines₁) _ h₁ (λ (password, lines₂) asked_password h₂.
        bind-some (ask_permissions lines₂) _ h₂ (λ (permissions, lines₃) asked_permissions h₃.
          let le₁ = ask-Reads (is_taken t) lines lines₁ login asked_login in
          let le₂ = ask-Reads is_empty lines₁ lines₂ password asked_password in
          let le₃ = ask_permissions-Reads lines₂ lines₃ permissions asked_permissions in
          let le₄ = next_line-le lines₃ in
          some-elim (λ r. weight r.1 ≤ weight lines) h₃ (omega arith))))

pub delete_from-Reads : (t : AuthTable) → Reads (λ lines. delete_from lines t)
unfolding delete_from
delete_from-Reads t lines rest t' h =
    bind-some (ask is_empty lines) _ h (λ (login, lines₁) asked_login h₁.
      some-elim (λ r. weight r.1 ≤ weight lines) h₁
        (ask-Reads is_empty lines lines₁ login asked_login))

pub on_table-Reads :
    (edit : List Str → AuthTable → Option (AuthTable × List Str))
    → ((t : AuthTable) → Reads (λ lines. edit lines t))
    → (s : State) (o : Option AuthTable) → Reads (λ lines. on_table edit lines s o)
on_table-Reads edit reads s none lines rest s' h =
    some-elim (λ r. weight r.1 ≤ weight lines) h (omega arith)
on_table-Reads edit reads s (some t) lines rest s' h = elim (Option-cases (edit lines t)) [
  | inl n ↦ absurd (cc (sym (ap (with_table s) n) ∙ h))
  | inr ((t', rest'), e) ↦
      some-elim (λ r. weight r.1 ≤ weight lines) (sym (ap (with_table s) e) ∙ h)
        (reads t lines rest' t' e)
]

pub set_file_path-Reads :
    (exists : Str → Bool) (read : Str → Option Str) (path : Str) (s : State)
    → Reads (λ lines. set_file_path exists read path lines s)
unfolding set_file_path
set_file_path-Reads exists read path s lines rest s' h = elim (Bool-cases (exists path)) [
  | inl there ↦
      let opened : State = record {
        auth_file_path = some path;
        auth_table = open_auth_table_from_file (read path);
      } in
      let e : set_file_path exists read path lines s ≡ some (opened, lines) = rw there in
      some-elim (λ r. weight r.1 ≤ weight lines) (sym e ∙ h) (omega arith)
  | inr missing ↦ elim (Option-cases (get_confirmation lines)) [
    | inl stuck ↦
        let e : set_file_path exists read path lines s ≡ none = rw (missing, stuck) in
        absurd (cc (e, h))
    | inr ((true, rest'), asked) ↦
        let created : State = record { auth_file_path = some path; auth_table = some [] } in
        let e : set_file_path exists read path lines s ≡ some (created, rest') =
          rw (missing, asked) in
        some-elim (λ r. weight r.1 ≤ weight lines) (sym e ∙ h)
          (get_confirmation-Reads lines rest' true asked)
    | inr ((false, rest'), asked) ↦
        let e : set_file_path exists read path lines s ≡ some (s, rest') = rw (missing, asked) in
        some-elim (λ r. weight r.1 ≤ weight lines) (sym e ∙ h)
          (get_confirmation-Reads lines rest' false asked)
  ]
]
