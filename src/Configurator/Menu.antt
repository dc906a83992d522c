-- ===== src/Configurator/Menu.antt =====
-- src/configurator.cpp: the loops of the menus, on the lines that are typed and the files that there
-- are.
pub mod Input
pub mod Bounds
pub mod Choices
pub mod Paths
pub mod Writes
pub mod Files
pub mod Reads
pub mod Termination
use gate_control.Base.{
  ℕ, zero, suc, ◌+◌, ◌-◌, ◌*◌, ◌%◌, ◌^◌, Bool, true, false, List, [], ◌∷◌, ◌++◌, Option, none, some,
  length, drop, ltb, leb, ◌==◌, if◌then◌else◌, is_some,
}
use gate_control.Base.Chain.{◌>>=◌}
use gate_control.Base.Text.{Str, str_eq}
use gate_control.AuthTable.Types.{AuthTable}
use gate_control.AuthTable.Stoi.{is_space, is_digit, skip_spaces}
use gate_control.Configurator.{
  State, set_file_path, add_new_user, delete_user, write_to_disk, no_file,
}
use gate_control.Configurator.Menu.Input.{menu, fix_cin, read_path}

-- A file that is not there, cannot be opened, or has contents.
pub data File : Type 0 where
  absent locked : File
  holds : Str → File

abbrev pub is_there : File → Bool
is_there absent = false
is_there _ = true

abbrev pub contents_of : File → Option Str
contents_of (holds s) = some s
contents_of _ = none

-- The state in which a file was written, its path and its contents.
abbrev pub Write : Type 0
Write = State × (Str × Str)

pub record Editor : Type 0 where
  pub state : State
  pub disk : Str → File
  pub lines : List Str
  -- What was written so far, in that order.
  pub written : List Write

abbrev pub with_state : Editor → Option (State × List Str) → Option Editor
with_state e none = none
with_state e (some (s, rest)) = some (record e { state = s; lines = rest })

abbrev pub with_write : Editor → Option (Str × Str) → Editor
with_write e none = e
with_write e (some (path, contents)) = record e {
  disk = λ p. if str_eq p path then holds contents else e.disk p;
  written = e.written ++ (e.state, (path, contents)) ∷ [];
}

-- `fix_cin` comes before the first question, which only an open table has.
abbrev pub edit_table : (List Str → State → Option (State × List Str)) → Editor → Option Editor
edit_table edit e =
    if is_some e.state.auth_table then with_state e (edit (fix_cin e.lines) e.state) else some e

unfoldable pub choose_path : Editor → Option Editor
unfolding read_path set_file_path
choose_path e = do
  path ← read_path e.lines
  with_state e (
      set_file_path (λ p. is_there (e.disk p)) (λ p. contents_of (e.disk p)) path.0 (fix_cin path.1)
        e.state)

-- Each pass of a loop of menus reads from the input: the bytes that are left, with their newlines,
-- are fuel enough.
abbrev pub weight : List Str → ℕ
weight [] = 0
weight (line ∷ lines) = suc (length line) + weight lines

module _ (can_open : Str → Bool) where
  -- The entries of `auth_menu` behind "Exit".
  unfoldable pub auth_entry : ℕ → Editor → Option Editor
  unfolding choose_path add_new_user delete_user write_to_disk
  auth_entry n e =
      if n == 1
      then choose_path e
      else if n == 2
      then some e
      else if n == 3
      then edit_table add_new_user e
      else if n == 4
      then edit_table delete_user e
      else some (with_write e (write_to_disk can_open e.state))

  unfoldable pub auth_menu : ℕ → Editor → Option Editor
  unfolding menu auth_entry
  auth_menu zero e = none
  auth_menu (suc fuel) e =
      let again = auth_menu fuel in
      do
        choice ← menu 6 e.lines
        let chosen : Editor = record e { lines = choice.1 }
        if choice.0 == 0 then some chosen else auth_entry choice.0 chosen >>= again

  unfoldable pub main_menu : ℕ → Editor → Option Editor
  unfolding menu auth_menu
  main_menu zero e = none
  main_menu (suc fuel) e =
      let again = main_menu fuel in
      do
        choice ← menu 2 e.lines
        let chosen : Editor = record e { lines = choice.1 }
        (if choice.0 == 0
            then some chosen
            else auth_menu (suc (weight chosen.lines)) chosen >>= again)

  -- `main`
  abbrev pub run : (Str → File) → List Str → Option Editor
  run disk lines =
      main_menu (suc (weight lines))
        (record { state = no_file; disk = disk; lines = lines; written = [] })
