-- ===== src/Tests/Menus.antt =====
-- Runs of the configurator.
use gate_control.Base.{true, List, [], ◌∷◌, Option, none, some, ◌≡◌, refl, All, map}
use gate_control.Base.Text.{Str, codes, str_eq, starts_with, to_lower, find_char, find_from}
use gate_control.AuthTable.Types.{AuthData, AuthTable, view, find_user, insert_user}
use gate_control.AuthTable.Stoi.{parse_permissions, skip_spaces}
use gate_control.AuthTable.Split.{split_str, split_from}
use gate_control.AuthTable.File.{save_auth_table_to_file}
use gate_control.Configurator.{no_file}
use gate_control.Configurator.Menu.Input.{read_path, quoted, menu, read_unsigned, number_at, digits}
use gate_control.Configurator.Menu.{File, absent, Editor, main_menu, run}
use gate_control.Configurator.Menu.Files.{HoldsUsers, run-HoldsUsers}
use gate_control.Configurator.Menu.Writes.{last_write}

-- A new file with one user, who is written to the disk.
abbrev typed : List Str
typed =
    codes "1"
    ∷ codes "1"
    ∷ codes " auth"
    ∷ codes "yes"
    ∷ codes "3"
    ∷ codes "amy"
    ∷ codes "pw"
    ∷ codes "1"
    ∷ codes "g1;g2"
    ∷ codes "7"
    ∷ codes "5"
    ∷ codes "0"
    ∷ codes "0"
    ∷ []

abbrev amy : AuthData
amy = record {
  permissions = view;
  map_groups = codes "g1" ∷ codes "g2" ∷ [];
  password = codes "pw";
}

abbrev no_disk : Str → File
no_disk path = absent

abbrev first_editor : Editor
first_editor = record { state = no_file; disk = no_disk; lines = typed; written = [] }

-- Not a number: the menu asks for ever.
stuck_choice : menu 6 (codes "x" ∷ codes "0" ∷ []) ≡ none
unfolding menu read_unsigned skip_spaces number_at
stuck_choice = refl

-- Behind an invalid choice the rest of the line is dropped, behind a valid one it is not.
valid_choice : menu 6 (codes "2" ∷ codes "0" ∷ []) ≡ some (2, [] ∷ codes "0" ∷ [])
unfolding menu read_unsigned skip_spaces number_at digits
valid_choice = refl

late_choice : menu 6 (codes "7" ∷ codes "2" ∷ codes "0" ∷ []) ≡ some (2, codes "0" ∷ [])
unfolding menu read_unsigned skip_spaces number_at digits
late_choice = refl

quoted_path :
    read_path ([] ∷ codes " \"my \\\"file\" 1" ∷ codes "y" ∷ [])
    ≡ some (codes "my \"file", codes " 1" ∷ codes "y" ∷ [])
unfolding read_path quoted skip_spaces
quoted_path = refl

abbrev ended_or_first : Option Editor → Editor
ended_or_first none = first_editor
ended_or_first (some e) = e

unfoldable ended : Editor
unfolding main_menu
ended = ended_or_first (run (λ p. true) no_disk typed)

typed_ends : run (λ p. true) no_disk typed ≡ some ended
unfolding ended main_menu save_auth_table_to_file str_eq find_user insert_user parse_permissions
    split_str split_from find_from find_char starts_with to_lower
typed_ends = refl

amy_written : map (λ w. w.1.0) ended.written ≡ codes "auth" ∷ []
unfolding ended main_menu save_auth_table_to_file str_eq find_user insert_user parse_permissions
    split_str split_from find_from find_char starts_with to_lower
amy_written = refl

run-HoldsUsers_example :
    All HoldsUsers ended.written
    × ((path : Str) → ended.disk path ≡ last_write path absent ended.written)
run-HoldsUsers_example = run-HoldsUsers (λ p. true) no_disk typed ended typed_ends

abbrev two_users : AuthTable
two_users = (codes "amy", amy) ∷ (codes "bob", amy) ∷ []
