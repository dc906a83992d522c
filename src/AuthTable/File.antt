-- ===== src/AuthTable/File.antt =====
-- src/auth_table.hpp: `open_auth_table_from_file` and `save_auth_table_to_file`, on the contents of
-- the file.
pub mod Lines
pub mod RoundTrip
pub mod Logins
use gate_control.Base.{
  ℕ, ◌+◌, ◌-◌, Bool, true, false, List, [], ◌∷◌, ◌++◌, Option, none, some, length, drop, ◌==◌,
  if◌then◌else◌,
}
use gate_control.Base.Chain.{◌>>=◌, ◌>>◌}
use gate_control.Base.Text.{Str, substr, find_char, find_from}
use gate_control.Base.Outcome.{Outcome, ok, raised}
use gate_control.AuthTable.Types.{AuthData, AuthTable, rank, insert_user}
use gate_control.AuthTable.Split.{split_str, join_vector}
use gate_control.AuthTable.Stoi.{parse_permissions}

-- The lines that `std::getline` reads.
abbrev extend : ℕ → List Str → List Str
extend c [] = (c ∷ []) ∷ []
extend c (l ∷ ls) = (c ∷ l) ∷ ls

unfoldable pub lines : Str → List Str
lines [] = []
lines (c ∷ s) = if c == b'\n' then [] ∷ lines s else extend c (lines s)

abbrev skip_if : Bool → Option (Unit {0})
skip_if true = none
skip_if false = some tt

-- The body of the loop: `login:permissions:map_groups:password`. `none` is a `continue`.
unfoldable pub parse_line : Str → Option (Str × AuthData)
parse_line line = do
  first ← find_char b':' line
  second ← find_from b':' line (first + 1)
  skip_if (length line == second)
  third ← find_from b':' line (second + 1)
  skip_if (length line == third)
  permissions ← parse_permissions (substr line (first + 1) (second - first - 1))
  let map_groups = split_str b';' (substr line (second + 1) (third - second - 1))
  let password = drop (third + 1) line
  let login = substr line 0 first
  some (login, record { permissions = permissions; map_groups = map_groups; password = password })

unfoldable pub add_line : AuthTable → Option (Str × AuthData) → AuthTable
add_line t none = t
add_line t (some (login, d)) = insert_user login d t

unfoldable pub add_lines : AuthTable → List Str → AuthTable
add_lines t [] = t
add_lines t (l ∷ ls) = add_lines (add_line t (parse_line l)) ls

-- The argument is what the file holds; `none` is a file that cannot be opened.
unfoldable pub open_auth_table_from_file : Option Str → Option AuthTable
open_auth_table_from_file none = none
open_auth_table_from_file (some contents) = some (add_lines [] (lines contents))

unfoldable pub entry_line : Str × AuthData → Str
entry_line (login, d) =
    login
    ++ (b':'
        ∷ (b'0' + rank d.permissions)
        ∷ b':'
        ∷ (join_vector b';' d.map_groups ++ (b':' ∷ d.password)))

-- `std::endl` follows every entry but the last.
unfoldable pub entries_text : AuthTable → Str
entries_text [] = []
entries_text (e ∷ []) = entry_line e
entries_text (e ∷ f ∷ t) = entry_line e ++ (b'\n' ∷ entries_text (f ∷ t))

-- The new contents of the file; the argument says whether it could be opened.
unfoldable pub save_auth_table_to_file : Bool → AuthTable → Outcome Str
save_auth_table_to_file false t = raised
save_auth_table_to_file true t = ok (entries_text t)
