-- ===== src/AuthTable/File/RoundTrip.antt =====
-- A saved table is read back, and what reading makes of any file.
use gate_control.Base.{
  ◌+◌, Bool, true, false, List, [], ◌∷◌, ◌++◌, Option, none, some, if◌then◌else◌, ◌≡◌, ◌≢◌, refl,
  sym, ap, ◌∙◌, All, All-append, append_assoc, append-nil, map, arith, Option-cases, inl, inr,
}
use gate_control.Base.Text.{Str, str_eq}
use gate_control.Base.Text.Laws.{Lacks, str_eq_sym}
use gate_control.Base.Outcome.{ok}
use gate_control.AuthTable.Types.{
  AuthData, AuthTable, AuthorizationType, blocked, view, control, rank, find_user, insert_user,
}
use gate_control.AuthTable.Types.Laws.{
  HasDistinctLogins, or_else, find_user-insert_user, insert_user-fresh, find_user-none,
  insert_user-HasDistinctLogins,
}
use gate_control.AuthTable.Split.{join_vector}
use gate_control.AuthTable.Split.Laws.{split_str-join_vector}
use gate_control.AuthTable.File.{
  lines, parse_line, add_line, add_lines, open_auth_table_from_file, entry_line, entries_text,
  save_auth_table_to_file,
}
use gate_control.AuthTable.File.Lines.{
  IsStorable, Lacks-join_vector, parse_permissions-rank, parse_line-fields,
}

digit-ne : (p : AuthorizationType) → (b'0' + rank p ≢ b':') × (b'0' + rank p ≢ b'\n')
digit-ne blocked = omega arith
digit-ne view = omega arith
digit-ne control = omega arith

parse_line-entry_line :
    (login : Str) (d : AuthData)
    → IsStorable login d
    → parse_line (entry_line (login, d)) ≡ some (login, d)
unfolding entry_line
parse_line-entry_line login d v =
    parse_line-fields login _ _ d.password _ v.login_field ((digit-ne d.permissions).0, tt)
      (Lacks-join_vector b':' b';' d.map_groups (omega arith) v.groups_field) refl
      (parse_permissions-rank d.permissions)
      (split_str-join_vector b';' d.map_groups v.groups_item v.groups_some)

lines-last : (l : Str) → Lacks b'\n' l → l ≢ [] → lines l ≡ l ∷ []
unfolding lines
lines-last [] h ne = absurd (ne refl)
lines-last (c ∷ []) h ne = ground arith
lines-last (c ∷ d ∷ l) h ne = ground (arith, lines-last (d ∷ l) h.1 (λ e. cc))

lines-append : (l s : Str) → Lacks b'\n' l → lines (l ++ b'\n' ∷ s) ≡ l ∷ lines s
unfolding lines
lines-append [] s h = refl
lines-append (c ∷ l) s h = ground (arith, lines-append l s h.1)

entry_line-Lacks :
    (login : Str) (d : AuthData) → IsStorable login d → Lacks b'\n' (entry_line (login, d))
unfolding entry_line
entry_line-Lacks login d v =
    All-append (λ b. b ≢ b'\n') login _ v.login_line
      (
        omega arith,
        (
          (digit-ne d.permissions).1,
          (
            omega arith,
            All-append (λ b. b ≢ b'\n') (join_vector b';' d.map_groups) _
                (Lacks-join_vector b'\n' b';' d.map_groups (omega arith) v.groups_line)
                (omega arith, v.password_line),
          ),
        ),
      )

entry_line-ne-nil : (e : Str × AuthData) → entry_line e ≢ []
unfolding entry_line
entry_line-ne-nil ([], d) h = cc
entry_line-ne-nil (c ∷ login, d) h = cc

abbrev pub IsStorableEntry : Str × AuthData → Type 0
IsStorableEntry (login, d) = IsStorable login d

lines-entries_text :
    (t : AuthTable) → All IsStorableEntry t → lines (entries_text t) ≡ map entry_line t
lines-entries_text [] v = unfold entries_text lines in refl
lines-entries_text ((n, d) ∷ []) v =
    unfold entries_text in
    lines-last (entry_line (n, d)) (entry_line-Lacks n d v.0) (entry_line-ne-nil (n, d))
lines-entries_text ((n, d) ∷ f ∷ t) v =
    let rest = lines-entries_text (f ∷ t) v.1 in
    glue (
      lines-append (entry_line (n, d)) (entries_text (f ∷ t)) (entry_line-Lacks n d v.0)
      ∙ ap (◌∷◌ (entry_line (n, d))) rest)
  where
    glue :
        lines (entry_line (n, d) ++ b'\n' ∷ entries_text (f ∷ t)) ≡ map entry_line ((n, d) ∷ f ∷ t)
        → lines (entries_text ((n, d) ∷ f ∷ t)) ≡ map entry_line ((n, d) ∷ f ∷ t)
    glue e = unfold entries_text in e

insert_user-keeps_fresh :
    (n : Str) (d : AuthData) (acc t : AuthTable)
    → All (λ e. find_user e.0 acc ≡ none) t
    → All (λ e. str_eq e.0 n ≡ false) t
    → All (λ e. find_user e.0 (insert_user n d acc) ≡ none) t
insert_user-keeps_fresh n d acc [] h k = tt
insert_user-keeps_fresh n d acc ((m, x) ∷ t) h k = (
  ground (arith, find_user-insert_user m n d acc, str_eq_sym n m),
  insert_user-keeps_fresh n d acc t h.1 k.1,
)

-- Reading appends the entries that it does not know yet.
add_lines-entry_line :
    (acc t : AuthTable)
    → All IsStorableEntry t
    → HasDistinctLogins t
    → All (λ e. find_user e.0 acc ≡ none) t
    → add_lines acc (map entry_line t) ≡ acc ++ t
unfolding add_lines add_line
add_lines-entry_line acc [] v u fresh = sym (append-nil acc)
add_lines-entry_line acc ((n, d) ∷ t) v u fresh =
    ap (λ o. add_lines (add_line acc o) (map entry_line t)) (parse_line-entry_line n d v.0)
    ∙ add_lines-entry_line (insert_user n d acc) t v.1 u.1
        (insert_user-keeps_fresh n d acc t fresh.1 (find_user-none n t u.0))
    ∙ ap (λ a. a ++ t) (insert_user-fresh n d acc fresh.0)
    ∙ append_assoc acc ((n, d) ∷ []) t

none_fresh : (t : AuthTable) → All (λ e. find_user e.0 [] ≡ none) t
unfolding find_user
none_fresh [] = tt
none_fresh (e ∷ t) = (refl, none_fresh t)

-- A table that the format can hold is read back as it was saved.
pub open_auth_table_from_file-save :
    (t : AuthTable) (contents : Str)
    → HasDistinctLogins t
    → All IsStorableEntry t
    → save_auth_table_to_file true t ≡ ok contents
    → (u : AuthTable) × (open_auth_table_from_file (some contents) ≡ some u)
      × ((login : Str) → find_user login u ≡ find_user login t)
open_auth_table_from_file-save t contents u v saved =
    (t, ap (λ c. open_auth_table_from_file (some c)) (text saved) ∙ back, λ login. refl)
  where
    text : save_auth_table_to_file true t ≡ ok contents → contents ≡ entries_text t
    text e = unfold save_auth_table_to_file in cc

    back : open_auth_table_from_file (some (entries_text t)) ≡ some t
    back =
        unfold open_auth_table_from_file in
        ap (λ ls. some (add_lines [] ls)) (lines-entries_text t v)
        ∙ ap some (add_lines-entry_line [] t v u (none_fresh t))

abbrev pub pick : Str → Option (Str × AuthData) → Option AuthData → Option AuthData
pick login none rest = rest
pick login (some (n, d)) rest = if str_eq n login then some d else rest

-- The data of the first line that is accepted for a login.
unfoldable pub first_entry : Str → List Str → Option AuthData
first_entry login [] = none
first_entry login (l ∷ ls) = pick login (parse_line l) (first_entry login ls)

or_else-nil : (o : Option AuthData) → o ≡ or_else o none
or_else-nil none = refl
or_else-nil (some x) = refl

or_else-if :
    (a c : Option AuthData) (b : Bool) (d : AuthData)
    → or_else (or_else a (if b then some d else none)) c ≡ or_else a (if b then some d else c)
or_else-if none c true d = refl
or_else-if none c false d = refl
or_else-if (some x) c b d = refl

find_user-add_lines :
    (login : Str) (t : AuthTable) (ls : List Str)
    → find_user login (add_lines t ls) ≡ or_else (find_user login t) (first_entry login ls)
unfolding add_lines add_line first_entry
find_user-add_lines login t [] = or_else-nil (find_user login t)
find_user-add_lines login t (l ∷ ls) = elim (Option-cases (parse_line l)) [
  | inl skipped ↦ rw skipped (find_user-add_lines login t ls)
  | inr ((n, d), accepted) ↦ rw accepted (
      find_user-add_lines login (insert_user n d t) ls
      ∙ ap (λ o. or_else o (first_entry login ls)) (find_user-insert_user login n d t)
      ∙ or_else-if (find_user login t) (first_entry login ls) (str_eq n login) d)
]

add_lines-HasDistinctLogins :
    (t : AuthTable) (ls : List Str) → HasDistinctLogins t → HasDistinctLogins (add_lines t ls)
unfolding add_lines add_line
add_lines-HasDistinctLogins t [] v = v
add_lines-HasDistinctLogins t (l ∷ ls) v = elim (Option-cases (parse_line l)) [
  | inl skipped ↦ rw skipped (add_lines-HasDistinctLogins t ls v)
  | inr ((n, d), accepted) ↦
      rw accepted
        (add_lines-HasDistinctLogins (insert_user n d t) ls (insert_user-HasDistinctLogins n d t v))
]

-- Any file that can be opened gives a table, in which each login stands once and has the data of
-- the first line for it that is well formed.
pub open_auth_table_from_file-first :
    (contents : Str)
    → (t : AuthTable) × (open_auth_table_from_file (some contents) ≡ some t)
      × HasDistinctLogins t
      × ((login : Str) → find_user login t ≡ first_entry login (lines contents))
unfolding open_auth_table_from_file
open_auth_table_from_file-first contents = (
  add_lines [] (lines contents),
  refl,
  add_lines-HasDistinctLogins [] (lines contents) tt,
  λ login. find_user-add_lines login [] (lines contents) ∙ unfold find_user in refl,
)
