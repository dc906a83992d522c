-- ===== src/Configurator/Saving.antt =====
-- What the menu writes to the disk.
use gate_control.Base.{
  Bool, true, false, List, [], Option, none, some, ◌≡◌, inl, inr, refl, sym, ap, ◌∙◌, subst,
  some-elim, Bool-cases, Option-cases, All,
}
use gate_control.Base.Text.{Str}
use gate_control.Base.Outcome.{ok}
use gate_control.AuthTable.Types.{AuthTable, find_user}
use gate_control.AuthTable.Types.Laws.{HasDistinctLogins}
use gate_control.AuthTable.File.{open_auth_table_from_file, save_auth_table_to_file, entries_text}
use gate_control.AuthTable.File.RoundTrip.{
  IsStorableEntry, open_auth_table_from_file-save, open_auth_table_from_file-first,
}
use gate_control.Configurator.{
  State, set_file_path, get_confirmation, with_table, on_table, add_to, delete_from, add_new_user,
  delete_user, write_to_disk, Edits, start, sets_path, adds, deletes, no_file,
}
use gate_control.Configurator.Users.{add_to-IsAdded, delete_from-IsDeleted}

-- An open table has a path, and no login twice.
abbrev pub IsEditable : Option Str → Option AuthTable → Type 0
IsEditable path none = Unit
IsEditable none (some t) = ⊥
IsEditable (some path) (some t) = HasDistinctLogins t

abbrev pub IsEditing : State → Type 0
IsEditing s = IsEditable s.auth_file_path s.auth_table

opened-IsEditable :
    (path : Str) (contents : Option Str)
    → IsEditable (some path) (open_auth_table_from_file contents)
opened-IsEditable path none = unfold open_auth_table_from_file in tt
opened-IsEditable path (some contents) =
    let (t, opened, distinct, _) = open_auth_table_from_file-first contents in
    subst (IsEditable (some path)) (sym opened) distinct

-- An edit keeps the table's logins distinct.
on_table-IsEditing :
    (edit : List Str → AuthTable → Option (AuthTable × List Str))
    → ((lines rest : List Str) (t t' : AuthTable)
        → HasDistinctLogins t
        → edit lines t ≡ some (t', rest)
        → HasDistinctLogins t')
    → (lines rest : List Str) (p : Option Str) (o : Option AuthTable) (s' : State) → IsEditable p o
    → on_table edit lines (record { auth_file_path = p; auth_table = o }) o ≡ some (s', rest)
    → IsEditing s'
on_table-IsEditing edit keeps lines rest p none s' v h = some-elim (λ r. IsEditing r.0) h v
on_table-IsEditing edit keeps lines rest none (some t) s' v h = absurd v
on_table-IsEditing edit keeps lines rest (some path) (some t) s' v h =
    elim (Option-cases (edit lines t)) [
      | inl stuck ↦ absurd (cc (h, stuck))
      | inr ((t', rest'), edited) ↦
          some-elim (λ r. IsEditing r.0)
            (sym (
                ap (with_table (record { auth_file_path = some path; auth_table = some t })) edited)
              ∙ h)
            (keeps lines rest' t t' v edited)
    ]

set_file_path-IsEditing :
    (exists : Str → Bool) (read : Str → Option Str) (path : Str) (lines rest : List Str)
    (s s' : State)
    → IsEditing s
    → set_file_path exists read path lines s ≡ some (s', rest)
    → IsEditing s'
unfolding set_file_path
set_file_path-IsEditing exists read path lines rest s s' v h = elim (Bool-cases (exists path)) [
  | inl there ↦
      let opened : State = record {
        auth_file_path = some path;
        auth_table = open_auth_table_from_file (read path);
      } in
      let e : set_file_path exists read path lines s ≡ some (opened, lines) = rw there in
      some-elim (λ r. IsEditing r.0) (sym e ∙ h) (opened-IsEditable path (read path))
  | inr missing ↦ elim (Option-cases (get_confirmation lines)) [
    | inl stuck ↦
        let e : set_file_path exists read path lines s ≡ none = rw (missing, stuck) in
        absurd (cc (e, h))
    | inr ((true, rest'), asked) ↦
        let created : State = record { auth_file_path = some path; auth_table = some [] } in
        let e : set_file_path exists read path lines s ≡ some (created, rest') =
          rw (missing, asked) in
        some-elim (λ r. IsEditing r.0) (sym e ∙ h) tt
    | inr ((false, rest'), asked) ↦
        let e : set_file_path exists read path lines s ≡ some (s, rest') = rw (missing, asked) in
        some-elim (λ r. IsEditing r.0) (sym e ∙ h) v
  ]
]

pub Edits-IsEditing : {r s : State} → Edits r s → IsEditing r → IsEditing s
unfolding add_new_user delete_user
Edits-IsEditing start v = v
Edits-IsEditing (sets_path {s = s} {s' = s'} exists read path lines rest edits h) v =
    set_file_path-IsEditing exists read path lines rest s s' (Edits-IsEditing edits v) h
Edits-IsEditing (adds {s = s} {s' = s'} lines rest edits h) v =
    on_table-IsEditing add_to (λ ls rs t t' d e. (add_to-IsAdded ls rs t t' d e).1) lines rest
      s.auth_file_path s.auth_table s' (Edits-IsEditing edits v) h
Edits-IsEditing (deletes {s = s} {s' = s'} lines rest edits h) v =
    on_table-IsEditing delete_from (λ ls rs t t' d e. (delete_from-IsDeleted ls rs t t' d e).1)
      lines rest s.auth_file_path s.auth_table s' (Edits-IsEditing edits v) h

-- Whatever was done in the menu since its start, a table whose users the format can hold is
-- written to the path that was set, if the file opens, and the server reads every user back.
pub Edits-write_to_disk :
    (can_open : Str → Bool) (s : State) (t : AuthTable)
    → Edits no_file s
    → s.auth_table ≡ some t
    → All IsStorableEntry t
    → ((path : Str) → s.auth_file_path ≡ some path → can_open path ≡ true)
    → (path : Str) × (contents : Str) × (s.auth_file_path ≡ some path)
      × (write_to_disk can_open s ≡ some (path, contents))
      × ((u : AuthTable) × (open_auth_table_from_file (some contents) ≡ some u)
          × ((login : Str) → find_user login u ≡ find_user login t))
unfolding write_to_disk
Edits-write_to_disk can_open s t edits opened storable opens =
    let editing : IsEditing s = Edits-IsEditing edits tt in
    elim (Option-cases s.auth_file_path) [
      | inl missing ↦ absurd (
          subst (λ o. IsEditable o (some t)) missing
            (subst (IsEditable s.auth_file_path) opened editing))
      | inr (path, there) ↦
          let saved : save_auth_table_to_file true t ≡ ok (entries_text t) =
            unfold save_auth_table_to_file in refl in
          (
            path,
            entries_text t,
            there,
            rw (opened, there, opens path there, saved),
            open_auth_table_from_file-save t (entries_text t)
                (subst (λ o. IsEditable o (some t)) there
                  (subst (IsEditable s.auth_file_path) opened editing))
                storable saved,
          )
    ]
