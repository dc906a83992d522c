-- ===== src/Configurator/Printing.antt =====
-- src/configurator.cpp: `stringify_vector` and `print_auth_table`. The users are printed in the
-- order of the table's list.
pub mod Shown
use gate_control.Base.{ℕ, List, [], ◌∷◌, ◌++◌, true}
use gate_control.Base.Text.{Str, codes}
use gate_control.AuthTable.Types.{AuthData, AuthTable, auth_type_to_str, rank}
use gate_control.Console.{
  white, bold, enable, disable, set_foreground_color, reset_foreground_color, int_text,
}

abbrev items_text : List Str → Str
items_text [] = []
items_text (x ∷ []) = x ++ codes "."
items_text (x ∷ y ∷ xs) = x ++ codes ", " ++ items_text (y ∷ xs)

unfoldable pub stringify_vector : List Str → Str
stringify_vector [] = codes "empty"
stringify_vector (x ∷ xs) = items_text (x ∷ xs)

-- A label in bold, and a value in white on the rest of the line.
abbrev pub field : Str → Str → Str
field label value =
    enable bold
    ++ label
    ++ disable bold
    ++ (set_foreground_color white ++ value ++ codes "\n" ++ reset_foreground_color)

abbrev pub permissions_text : AuthData → Str
permissions_text d =
    auth_type_to_str d.permissions ++ codes " (" ++ int_text (rank d.permissions) ++ codes ")"

unfoldable pub print_user : Str → AuthData → Str
unfolding stringify_vector
print_user login d =
    field (codes "Login: ") login
    ++ field (codes "Password: ") d.password
    ++ field (codes "Permissions: ") (permissions_text d)
    ++ field (codes "Map groups: ") (stringify_vector d.map_groups)

unfoldable pub print_auth_table : AuthTable → Str
unfolding print_user
print_auth_table [] = []
print_auth_table ((login, d) ∷ []) = print_user login d
print_auth_table ((login, d) ∷ u ∷ users) =
    print_user login d ++ codes "\n" ++ print_auth_table (u ∷ users)
