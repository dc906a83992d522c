-- ===== src/Tests/Users.antt =====
-- The auth-file, split and joined, saved and read.
use gate_control.Base.{[], ◌∷◌, none, some, ◌≡◌, refl, arith, true}
use gate_control.Base.Text.{Str, codes, str_eq}
use gate_control.Base.Outcome.{ok}
use gate_control.AuthTable.Types.{AuthData, AuthTable, view, control, find_user}
use gate_control.AuthTable.Split.{join_vector}
use gate_control.AuthTable.Stoi.{parse_permissions}
use gate_control.AuthTable.File.{
  open_auth_table_from_file, entry_line, save_auth_table_to_file, lines, entries_text,
}
use gate_control.AuthTable.File.Lines.{IsStorable}
use gate_control.AuthTable.File.RoundTrip.{
  open_auth_table_from_file-save, open_auth_table_from_file-first, first_entry,
}
use gate_control.AuthTable.Types.Laws.{HasDistinctLogins}

abbrev john : AuthData
john = record {
  permissions = control;
  map_groups = codes "group1" ∷ codes "group2" ∷ [];
  password = codes "securepassword123";
}

abbrev mary : AuthData
mary = record { permissions = view; map_groups = []; password = codes "a:b" }

abbrev table : AuthTable
table = (codes "john", john) ∷ (codes "mary", mary) ∷ []

abbrev text : Str
text = codes "john:2:group1;group2:securepassword123\nmary:1::a:b"

saved_text : save_auth_table_to_file true table ≡ ok text
unfolding save_auth_table_to_file entries_text entry_line join_vector
saved_text = refl

permissions_with_rest : parse_permissions (codes " +1x") ≡ some view
unfolding parse_permissions
permissions_with_rest = refl

permissions_negative : parse_permissions (codes "-1") ≡ none
unfolding parse_permissions
permissions_negative = refl

table_logins : HasDistinctLogins table
unfolding find_user str_eq
table_logins = (refl, (refl, tt))

john-IsStorable : IsStorable (codes "john") john
john-IsStorable = record {
  login_field = omega arith;
  login_line = omega arith;
  groups_item = omega arith;
  groups_field = omega arith;
  groups_line = omega arith;
  groups_some = λ e. cc;
  password_line = omega arith;
}

mary-IsStorable : IsStorable (codes "mary") mary
mary-IsStorable = record {
  login_field = omega arith;
  login_line = omega arith;
  groups_item = tt;
  groups_field = tt;
  groups_line = tt;
  groups_some = λ e. cc;
  password_line = omega arith;
}

open_auth_table_from_file-save_example :
    (u : AuthTable) × (open_auth_table_from_file (some text) ≡ some u)
    × ((login : Str) → find_user login u ≡ find_user login table)
open_auth_table_from_file-save_example =
    open_auth_table_from_file-save table text table_logins (john-IsStorable, (mary-IsStorable, tt))
      saved_text

open_auth_table_from_file-first_example :
    (t : AuthTable) × (open_auth_table_from_file (some (codes "bad\na:2::x\na:1::y")) ≡ some t)
    × HasDistinctLogins t
    × ((login : Str) → find_user login t ≡ first_entry login (lines (codes "bad\na:2::x\na:1::y")))
open_auth_table_from_file-first_example =
    open_auth_table_from_file-first (codes "bad\na:2::x\na:1::y")
