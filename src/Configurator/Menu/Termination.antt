-- ===== src/Configurator/Menu/Termination.antt =====
-- The menus read on with each pass, so their fuel is never used up.
use gate_control.Base.{
  ℕ, zero, suc, ◌≤◌, ◌<◌, Bool, true, false, List, Option, none, some, ◌==◌, if◌then◌else◌, is_some,
  ◌≡◌, refl, sym, ap, ◌∙◌, inl, inr, arith, some-elim, subst, Bool-cases, Option-cases,
}
use gate_control.Base.Chain.{◌>>=◌, bind-some}
use gate_control.Base.Text.{Str}
use gate_control.Configurator.{
  State, set_file_path, add_to, delete_from, add_new_user, delete_user, write_to_disk,
}
use gate_control.Configurator.Menu.Input.{menu, fix_cin, read_path}
use gate_control.Configurator.Menu.{
  is_there, contents_of, Editor, with_state, with_write, edit_table, choose_path, auth_entry,
  auth_menu, weight, main_menu,
}
use gate_control.Configurator.Menu.Bounds.{Less, NotMore, drop-NotMore, menu-Less}
use gate_control.Configurator.Menu.Paths.{read_path-NotMore}
use gate_control.Configurator.Menu.Reads.{
  Reads, add_to-Reads, delete_from-Reads, on_table-Reads, set_file_path-Reads,
}

-- Whatever comes of it has not more to read.
abbrev Advances : ℕ → Option Editor → Type 0
Advances n o = (e : Editor) → o ≡ some e → weight e.lines ≤ n

edit-Advances :
    (edit : List Str → State → Option (State × List Str))
    → ((s : State) → Reads (λ lines. edit lines s))
    → (n : ℕ) (lines : List Str) (e : Editor) → weight lines ≤ n
    → Advances n (with_state e (edit lines e.state))
edit-Advances edit reads n lines e le e' h = elim (Option-cases (edit lines e.state)) [
  | inl stuck ↦ absurd (cc (sym (ap (with_state e) stuck) ∙ h))
  | inr ((s', rest), edited) ↦
      let less = reads e.state lines rest s' edited in
      some-elim (λ x. weight x.lines ≤ n) (sym (ap (with_state e) edited) ∙ h) (omega arith)
]

some-Advances : (n : ℕ) (e : Editor) → weight e.lines ≤ n → Advances n (some e)
some-Advances n e le e' h = some-elim (λ x. weight x.lines ≤ n) h le

if-Advances :
    (n : ℕ) (b : Bool) (x y : Option Editor)
    → Advances n x
    → Advances n y
    → Advances n (if b then x else y)
if-Advances n true x y ax ay = ax
if-Advances n false x y ax ay = ay

edit_table-Advances :
    (edit : List Str → State → Option (State × List Str))
    → ((s : State) → Reads (λ lines. edit lines s))
    → (e : Editor) → Advances (weight e.lines) (edit_table edit e)
edit_table-Advances edit reads e =
    if-Advances (weight e.lines) (is_some e.state.auth_table)
      (with_state e (edit (fix_cin e.lines) e.state)) (some e)
      (edit-Advances edit reads (weight e.lines) (fix_cin e.lines) e (drop-NotMore e.lines))
      (some-Advances (weight e.lines) e (omega arith))

choose_path-Advances : (e : Editor) → Advances (weight e.lines) (choose_path e)
unfolding choose_path
choose_path-Advances e e' h = bind-some (read_path e.lines) _ h (λ (path, rest) came h'.
    let le : weight rest ≤ weight e.lines =
      subst (NotMore e.lines) came (read_path-NotMore e.lines) in
    let le' = drop-NotMore rest in
    let exists : Str → Bool = λ p. is_there (e.disk p) in
    let read : Str → Option Str = λ p. contents_of (e.disk p) in
    edit-Advances (set_file_path exists read path) (set_file_path-Reads exists read path)
      (weight e.lines) (fix_cin rest) e (omega arith) e' h')

with_write-lines : (e : Editor) (o : Option (Str × Str)) → (with_write e o).lines ≡ e.lines
with_write-lines e none = refl
with_write-lines e (some file) = refl

module _ (can_open : Str → Bool) where
  auth_entry-Advances : (n : ℕ) (e : Editor) → Advances (weight e.lines) (auth_entry can_open n e)
  unfolding auth_entry add_new_user delete_user
  auth_entry-Advances n e =
      let w = weight e.lines in
      if-Advances w (n == 1) (choose_path e) _ (choose_path-Advances e) (
        if-Advances w (n == 2) (some e) _ (some-Advances w e (omega arith)) (
          if-Advances w (n == 3) (edit_table add_new_user e) _
            (edit_table-Advances add_new_user
              (λ s. on_table-Reads add_to add_to-Reads s s.auth_table) e)
            (if-Advances w (n == 4) (edit_table delete_user e) _
              (edit_table-Advances delete_user
                (λ s. on_table-Reads delete_from delete_from-Reads s s.auth_table) e)
              (some-Advances w (with_write e (write_to_disk can_open e.state))
                (rw (with_write-lines e (write_to_disk can_open e.state)) (omega arith))))))

  auth_menu-Advances :
      (fuel : ℕ) (e : Editor) → Advances (weight e.lines) (auth_menu can_open fuel e)
  unfolding auth_menu
  auth_menu-Advances zero e e' h = absurd (cc h)
  auth_menu-Advances (suc fuel) e e' h = bind-some (menu 6 e.lines) _ h (λ (n, rest) came h'.
      let less : weight rest < weight e.lines = subst (Less e.lines) came (menu-Less 6 e.lines) in
      let chosen : Editor = record e { lines = rest } in
      if-Advances (weight e.lines) (n == 0) (some chosen)
        (auth_entry can_open n chosen >>= auth_menu can_open fuel)
        (some-Advances (weight e.lines) chosen (omega arith))
        (λ e'' k.
          bind-some (auth_entry can_open n chosen) (auth_menu can_open fuel) k (λ e₁ entered k'.
            let le = auth_entry-Advances n chosen e₁ entered in
            let le' = auth_menu-Advances fuel e₁ e'' k' in omega arith))
        e' h')

  auth_menu_fuel :
      (f g : ℕ) (e : Editor)
      → weight e.lines < f
      → weight e.lines < g
      → auth_menu can_open f e ≡ auth_menu can_open g e
  unfolding auth_menu
  auth_menu_fuel zero g e hf hg = absurd (omega arith)
  auth_menu_fuel (suc f) zero e hf hg = absurd (omega arith)
  auth_menu_fuel (suc f) (suc g) e hf hg = elim (Option-cases (menu 6 e.lines)) [
    | inl stuck ↦ rw stuck refl
    | inr ((n, rest), came) ↦
        let less : weight rest < weight e.lines = subst (Less e.lines) came (menu-Less 6 e.lines) in
        let chosen : Editor = record e { lines = rest } in
        elim (Bool-cases (n == 0)) [
          | inl t ↦ rw (came, t) refl
          | inr b ↦ elim (Option-cases (auth_entry can_open n chosen)) [
            | inl stuck ↦ rw (came, b, stuck) refl
            | inr (e₁, entered) ↦
                let le = auth_entry-Advances n chosen e₁ entered in
                rw (came, b, entered) (auth_menu_fuel f g e₁ (omega arith) (omega arith))
          ]
        ]
  ]

  main_menu_fuel :
      (f g : ℕ) (e : Editor)
      → weight e.lines < f
      → weight e.lines < g
      → main_menu can_open f e ≡ main_menu can_open g e
  unfolding main_menu
  main_menu_fuel zero g e hf hg = absurd (omega arith)
  main_menu_fuel (suc f) zero e hf hg = absurd (omega arith)
  main_menu_fuel (suc f) (suc g) e hf hg = elim (Option-cases (menu 2 e.lines)) [
    | inl stuck ↦ rw stuck refl
    | inr ((n, rest), came) ↦
        let less : weight rest < weight e.lines = subst (Less e.lines) came (menu-Less 2 e.lines) in
        let chosen : Editor = record e { lines = rest } in
        let inner = suc (weight rest) in
        elim (Bool-cases (n == 0)) [
          | inl t ↦ rw (came, t) refl
          | inr b ↦ elim (Option-cases (auth_menu can_open inner chosen)) [
            | inl stuck ↦ rw (came, b, stuck) refl
            | inr (e₁, left) ↦
                let le = auth_menu-Advances inner chosen e₁ left in
                rw (came, b, left) (main_menu_fuel f g e₁ (omega arith) (omega arith))
          ]
        ]
  ]

  -- With more fuel than there are bytes to read, the menus give what they give with one more than
  -- that.
  menus_fuel :
      (fuel : ℕ) (e : Editor)
      → weight e.lines < fuel
      → (auth_menu can_open fuel e ≡ auth_menu can_open (suc (weight e.lines)) e)
        × (main_menu can_open fuel e ≡ main_menu can_open (suc (weight e.lines)) e)
  menus_fuel fuel e h = (
    auth_menu_fuel fuel (suc (weight e.lines)) e h (omega arith),
    main_menu_fuel fuel (suc (weight e.lines)) e h (omega arith),
  )
