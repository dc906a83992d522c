-- ===== src/Configurator/Printing/Shown.antt =====
-- What a terminal shows of the table of users.
use gate_control.Base.{[], ◌∷◌, ◌++◌, All}
use gate_control.Base.Text.{Str, codes}
use gate_control.AuthTable.Types.{AuthData, AuthTable}
use gate_control.Console.Visible.{HasNoEscape}
use gate_control.Configurator.Printing.{stringify_vector, permissions_text}

abbrev pub line : Str → Str → Str
line label value = label ++ (value ++ codes "\n")

-- The four lines of a user, and an empty line between two users.
abbrev pub user_lines : Str → AuthData → Str
user_lines login d =
    line (codes "Login: ") login
    ++ line (codes "Password: ") d.password
    ++ line (codes "Permissions: ") (permissions_text d)
    ++ line (codes "Map groups: ") (stringify_vector d.map_groups)

abbrev pub table_lines : AuthTable → Str
table_lines [] = []
table_lines ((login, d) ∷ []) = user_lines login d
table_lines ((login, d) ∷ u ∷ users) = user_lines login d ++ codes "\n" ++ table_lines (u ∷ users)

-- No byte of the user's texts begins a control sequence.
pub record IsPrintable (login : Str) (d : AuthData) : Type 0 where
  pub login_plain : HasNoEscape login
  pub password_plain : HasNoEscape d.password
  pub groups_plain : All HasNoEscape d.map_groups
