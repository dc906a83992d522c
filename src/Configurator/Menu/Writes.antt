-- ===== src/Configurator/Menu/Writes.antt =====
-- What a run of the configurator leaves on the disk.
use gate_control.Base.{
  ℕ, zero, suc, Bool, true, false, List, [], ◌∷◌, ◌++◌, Option, some, ◌==◌, if◌then◌else◌, is_some,
  ◌≡◌, refl, sym, ap, ◌∙◌, inl, inr, some-elim, Bool-cases, Option-cases, All, All-append,
}
use gate_control.Base.Chain.{◌>>=◌, bind-some}
use gate_control.Base.Text.{Str, str_eq}
use gate_control.Configurator.{
  State, set_file_path, add_new_user, delete_user, write_to_disk, no_file, Edits, sets_path, adds,
  deletes,
}
use gate_control.Configurator.Menu.Input.{menu, fix_cin, read_path}
use gate_control.Configurator.Menu.{
  File, holds, Write, is_there, contents_of, Editor, with_state, with_write, edit_table,
  choose_path, auth_entry, auth_menu, weight, main_menu,
}

-- What a file holds behind some writes.
abbrev pub last_write : Str → File → List Write → File
last_write p f [] = f
last_write p f ((s, (q, contents)) ∷ ws) =
    last_write p (if str_eq p q then holds contents else f) ws

last_write-append :
    (p : Str) (f : File) (ws : List Write) (s : State) (q contents : Str)
    → last_write p f (ws ++ (s, (q, contents)) ∷ [])
      ≡ (if str_eq p q then holds contents else last_write p f ws)
last_write-append p f [] s q contents = refl
last_write-append p f ((r, (o, other)) ∷ ws) s q contents =
    last_write-append p (if str_eq p o then holds other else f) ws s q contents

module _ (can_open : Str → Bool) (first_disk : Str → File) where
  -- A write of an edited state.
  abbrev pub IsWritten : Write → Type 0
  IsWritten (s, file) = Edits no_file s × (write_to_disk can_open s ≡ some file)

  pub record IsProper (e : Editor) : Type 0 where
    pub edited : Edits no_file e.state
    pub all_written : All IsWritten e.written
    pub on_disk : (p : Str) → e.disk p ≡ last_write p (first_disk p) e.written

  -- What an edit gives, on a proper editor.
  edit-IsProper :
      (edit : List Str → State → Option (State × List Str))
      → ((lines rest : List Str) (s s' : State)
          → Edits no_file s
          → edit lines s ≡ some (s', rest)
          → Edits no_file s')
      → (lines : List Str) (e e' : Editor) → IsProper e
      → with_state e (edit lines e.state) ≡ some e'
      → IsProper e'
  edit-IsProper edit keeps lines e e' proper h = elim (Option-cases (edit lines e.state)) [
    | inl stuck ↦ absurd (cc (sym (ap (with_state e) stuck) ∙ h))
    | inr ((s', rest), edited) ↦ some-elim IsProper (sym (ap (with_state e) edited) ∙ h) (record {
      edited = keeps lines rest e.state s' proper.edited edited;
      all_written = proper.all_written;
      on_disk = proper.on_disk;
    })
  ]

  edit_table-IsProper :
      (edit : List Str → State → Option (State × List Str))
      → ((lines rest : List Str) (s s' : State)
          → Edits no_file s
          → edit lines s ≡ some (s', rest)
          → Edits no_file s')
      → (e e' : Editor) → IsProper e
      → edit_table edit e ≡ some e'
      → IsProper e'
  edit_table-IsProper edit keeps e e' proper h = elim (Bool-cases (is_some e.state.auth_table)) [
    | inl t ↦
        let opened : edit_table edit e ≡ with_state e (edit (fix_cin e.lines) e.state) =
          rw t refl in
        edit-IsProper edit keeps (fix_cin e.lines) e e' proper (sym opened ∙ h)
    | inr f ↦
        let shut : edit_table edit e ≡ some e = rw f refl in
        some-elim IsProper (sym shut ∙ h) proper
  ]

  choose_path-IsProper : (e e' : Editor) → IsProper e → choose_path e ≡ some e' → IsProper e'
  unfolding choose_path
  choose_path-IsProper e e' proper h = bind-some (read_path e.lines) _ h (λ (path, rest) _ h'.
      let exists : Str → Bool = λ p. is_there (e.disk p) in
      let read : Str → Option Str = λ p. contents_of (e.disk p) in
      edit-IsProper (set_file_path exists read path)
        (λ lines rest s s' edits k. sets_path exists read path lines rest edits k) (fix_cin rest) e
        e' proper h')

  with_write-IsProper :
      (e : Editor) → IsProper e → IsProper (with_write e (write_to_disk can_open e.state))
  with_write-IsProper e proper = elim (Option-cases (write_to_disk can_open e.state)) [
    | inl nothing ↦ rw nothing proper
    | inr ((path, contents), wrote) ↦ rw wrote (record {
      edited = proper.edited;
      all_written =
          All-append IsWritten e.written ((e.state, (path, contents)) ∷ []) proper.all_written
            ((proper.edited, wrote), tt);
      on_disk = λ p.
          ap (λ f. if str_eq p path then holds contents else f) (proper.on_disk p)
          ∙ sym (last_write-append p (first_disk p) e.written e.state path contents);
    })
  ]

  -- Whatever comes of it is proper.
  abbrev pub Gives : Option Editor → Type 0
  Gives o = (e : Editor) → o ≡ some e → IsProper e

  if-Gives : (b : Bool) (x y : Option Editor) → Gives x → Gives y → Gives (if b then x else y)
  if-Gives true x y gx gy = gx
  if-Gives false x y gx gy = gy

  some-Gives : (e : Editor) → IsProper e → Gives (some e)
  some-Gives e proper e' h = some-elim IsProper h proper

  bind-Gives :
      (o : Option Editor) (f : Editor → Option Editor)
      → Gives o
      → ((e : Editor) → IsProper e → Gives (f e))
      → Gives (o >>= f)
  bind-Gives o f gives next e h = bind-some o f h (λ e' came h'. next e' (gives e' came) e h')

  auth_entry-Gives : (n : ℕ) (e : Editor) → IsProper e → Gives (auth_entry can_open n e)
  unfolding auth_entry
  auth_entry-Gives n e proper =
      if-Gives (n == 1) (choose_path e) _ (λ e' h. choose_path-IsProper e e' proper h)
        (if-Gives (n == 2) (some e) _ (some-Gives e proper) (
          if-Gives (n == 3) (edit_table add_new_user e) _
            (λ e' h.
              edit_table-IsProper add_new_user (λ ls rest s s' edits k. adds ls rest edits k) e e'
                proper h)
            (if-Gives (n == 4) (edit_table delete_user e) _
              (λ e' h.
                edit_table-IsProper delete_user (λ ls rest s s' edits k. deletes ls rest edits k) e
                  e' proper h)
              (some-Gives (with_write e (write_to_disk can_open e.state))
                (with_write-IsProper e proper)))))

  at_lines-IsProper :
      (e : Editor) (lines : List Str) → IsProper e → IsProper (record e { lines = lines })
  at_lines-IsProper e lines proper = record {
    edited = proper.edited;
    all_written = proper.all_written;
    on_disk = proper.on_disk;
  }

  auth_menu-Gives : (fuel : ℕ) (e : Editor) → IsProper e → Gives (auth_menu can_open fuel e)
  unfolding auth_menu
  auth_menu-Gives zero e proper e' h = absurd (cc h)
  auth_menu-Gives (suc fuel) e proper e' h = bind-some (menu 6 e.lines) _ h (λ (n, rest) _ h'.
      let chosen : Editor = record e { lines = rest } in
      let proper' = at_lines-IsProper e rest proper in
      if-Gives (n == 0) (some chosen) (auth_entry can_open n chosen >>= auth_menu can_open fuel)
        (some-Gives chosen proper')
        (bind-Gives (auth_entry can_open n chosen) (auth_menu can_open fuel)
          (auth_entry-Gives n chosen proper') (auth_menu-Gives fuel))
        e' h')

  pub main_menu-Gives : (fuel : ℕ) (e : Editor) → IsProper e → Gives (main_menu can_open fuel e)
  unfolding main_menu
  main_menu-Gives zero e proper e' h = absurd (cc h)
  main_menu-Gives (suc fuel) e proper e' h = bind-some (menu 2 e.lines) _ h (λ (n, rest) _ h'.
      let chosen : Editor = record e { lines = rest } in
      let proper' = at_lines-IsProper e rest proper in
      let inner = suc (weight rest) in
      if-Gives (n == 0) (some chosen) (auth_menu can_open inner chosen >>= main_menu can_open fuel)
        (some-Gives chosen proper')
        (bind-Gives (auth_menu can_open inner chosen) (main_menu can_open fuel)
          (auth_menu-Gives inner chosen proper') (main_menu-Gives fuel))
        e' h')
