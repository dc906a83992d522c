-- ===== src/Configurator.antt =====
-- src/configurator.cpp: the menu that edits the auth-file. The arguments are the lines that
-- `std::getline` reads; what is printed is left out.
pub mod Prompts
pub mod Users
pub mod Saving
pub mod Menu
pub mod Printing
use gate_control.Base.{
  ℕ, Bool, true, false, not, ◌&&◌, ◌||◌, List, [], ◌∷◌, ◌++◌, Option, none, some, map, length, ltb,
  ◌==◌, ◌+◌, ◌-◌, leb, if◌then◌else◌, is_some, ◌≡◌,
}
use gate_control.Base.Chain.{◌>>=◌}
use gate_control.Base.Text.{Str, codes, starts_with, to_lower}
use gate_control.Base.Outcome.{Outcome, ok, raised, undefined}
use gate_control.AuthTable.Types.{
  AuthorizationType, AuthData, AuthTable, find_user, insert_user, erase_user,
}
use gate_control.AuthTable.Split.{split_str}
use gate_control.AuthTable.Stoi.{parse_permissions}
use gate_control.AuthTable.File.{open_auth_table_from_file, save_auth_table_to_file}

unfoldable pub to_lowercase : Str → Str
to_lowercase s = map to_lower s

-- The loops that read lines until one is good. `none` where the input ends first: then every line
-- is empty, and the loop never ends.
unfoldable pub ask : (Str → Bool) → List Str → Option (Str × List Str)
ask is_bad [] = none
ask is_bad (line ∷ lines) =
    let again = ask is_bad lines in if is_bad line then again else some (line, lines)

abbrev pub or_again :
    List Str
    → Option (AuthorizationType × List Str)
    → Option AuthorizationType
    → Option (AuthorizationType × List Str)
or_again lines again none = again
or_again lines again (some p) = some (p, lines)

unfoldable pub ask_permissions : List Str → Option (AuthorizationType × List Str)
ask_permissions [] = none
ask_permissions (line ∷ lines) =
    let again = ask_permissions lines in or_again lines again (parse_permissions line)

-- At the end of the input the line is empty.
abbrev pub next_line : List Str → Str × List Str
next_line [] = ([], [])
next_line (line ∷ lines) = (line, lines)

-- With the answers "y" and "n", and not `nonintrusive`, as it is called.
unfoldable pub get_confirmation : List Str → Option (Bool × List Str)
unfolding to_lowercase
get_confirmation [] = none
get_confirmation (answer ∷ lines) =
    let again = get_confirmation lines in
    let is_positive = starts_with (to_lowercase answer) (codes "y") in
    let is_negative = starts_with (to_lowercase answer) (codes "n") in
    if not is_positive && not is_negative then again else some (is_positive, lines)

pub record State : Type 0 where
  pub auth_file_path : Option Str
  pub auth_table : Option AuthTable

-- The file system: whether a path exists, and what the file holds if it can be opened.
unfoldable pub set_file_path :
    (Str → Bool) → (Str → Option Str) → Str → List Str → State → Option (State × List Str)
unfolding get_confirmation
set_file_path exists read path lines s =
    if exists path
    then some (
      record { auth_file_path = some path; auth_table = open_auth_table_from_file (read path) },
      lines,
    )
    else elim (get_confirmation lines) [
      | none ↦ none
      | some (create, rest) ↦
          if create
          then some (record { auth_file_path = some path; auth_table = some [] }, rest)
          else some (s, rest)
    ]

abbrev pub is_empty : Str → Bool
is_empty line = length line == 0

abbrev pub is_taken : AuthTable → Str → Bool
is_taken t login = is_empty login || is_some (find_user login t)

-- `add_new_user`, on an open table.
unfoldable pub add_to : List Str → AuthTable → Option (AuthTable × List Str)
unfolding ask ask_permissions
add_to lines t = do
  asked_login ← ask (is_taken t) lines
  asked_password ← ask is_empty asked_login.1
  asked_permissions ← ask_permissions asked_password.1
  let map_groups_line = next_line asked_permissions.1
  let data_of_user : AuthData = record {
    permissions = asked_permissions.0;
    map_groups = split_str b';' map_groups_line.0;
    password = asked_password.0;
  }
  some (insert_user asked_login.0 data_of_user t, map_groups_line.1)

-- `delete_user`, on an open table.
unfoldable pub delete_from : List Str → AuthTable → Option (AuthTable × List Str)
unfolding ask
delete_from lines t = do
  asked_login ← ask is_empty lines
  some
      (if is_some (find_user asked_login.0 t) then erase_user asked_login.0 t else t, asked_login.1)

abbrev pub with_table : State → Option (AuthTable × List Str) → Option (State × List Str)
with_table s none = none
with_table s (some (t, rest)) = some (record s { auth_table = some t }, rest)

abbrev pub on_table :
    (List Str → AuthTable → Option (AuthTable × List Str))
    → List Str
    → State
    → Option AuthTable
    → Option (State × List Str)
on_table edit lines s none = some (s, lines)
on_table edit lines s (some t) = with_table s (edit lines t)

-- Without an open table only a warning is printed.
unfoldable pub add_new_user : List Str → State → Option (State × List Str)
unfolding add_to
add_new_user lines s = on_table add_to lines s s.auth_table

unfoldable pub delete_user : List Str → State → Option (State × List Str)
unfolding delete_from
delete_user lines s = on_table delete_from lines s s.auth_table

abbrev pub written_to : Str → Outcome Str → Option (Str × Str)
written_to path (ok contents) = some (path, contents)
written_to path raised = none
written_to path undefined = none

-- The path and the contents that are written, if any; `can_open` is of the file's stream.
-- `auth_file_path.value()` throws where there is none, and every exception is caught.
unfoldable pub write_to_disk : (Str → Bool) → State → Option (Str × Str)
write_to_disk can_open s = do
  t ← s.auth_table
  path ← s.auth_file_path
  written_to path (save_auth_table_to_file (can_open path) t)

-- What the menu does to the state, whatever files there are.
pub data Edits : State → State → Type 0 where
  start : {s : State} → Edits s s
  sets_path :
      {r s s' : State} (exists : Str → Bool) (read : Str → Option Str) (path : Str)
      (lines rest : List Str)
      → Edits r s
      → set_file_path exists read path lines s ≡ some (s', rest)
      → Edits r s'
  adds :
      {r s s' : State} (lines rest : List Str)
      → Edits r s
      → add_new_user lines s ≡ some (s', rest)
      → Edits r s'
  deletes :
      {r s s' : State} (lines rest : List Str)
      → Edits r s
      → delete_user lines s ≡ some (s', rest)
      → Edits r s'

-- `state s;` of `main`
abbrev pub no_file : State
no_file = record { auth_file_path = none; auth_table = none }
