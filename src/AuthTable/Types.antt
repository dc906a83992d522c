-- ===== src/AuthTable/Types.antt =====
-- src/auth_table.hpp: permissions, a user's data and the table of users. The table is an
-- `unordered_map`: the list of its entries in the order of iteration, each login once.
pub mod Laws
use gate_control.Base.{ℕ, Bool, List, [], ◌∷◌, Option, none, some, ltb, if◌then◌else◌, is_some}
use gate_control.Base.Text.{Str, codes, str_eq}

pub data AuthorizationType : Type 0 where
  blocked view control : AuthorizationType

-- The enumerators' values.
abbrev pub rank : AuthorizationType → ℕ
rank blocked = 0
rank view = 1
rank control = 2

abbrev pub lt_permissions : AuthorizationType → AuthorizationType → Bool
lt_permissions a b = ltb (rank a) (rank b)

unfoldable pub auth_type_to_str : AuthorizationType → Str
auth_type_to_str blocked = codes "Blocked"
auth_type_to_str view = codes "View"
auth_type_to_str control = codes "Control"

pub record AuthData : Type 0 where
  pub permissions : AuthorizationType
  pub map_groups : List Str
  pub password : Str

abbrev pub AuthTable : Type 0
AuthTable = List (Str × AuthData)

-- `table.find(login)`
unfoldable pub find_user : Str → AuthTable → Option AuthData
find_user login [] = none
find_user login ((name, d) ∷ t) = if str_eq name login then some d else find_user login t

abbrev append_user : Str → AuthData → AuthTable → AuthTable
append_user login d [] = (login, d) ∷ []
append_user login d (e ∷ t) = e ∷ append_user login d t

-- `table.insert({login, d})` changes nothing if the login is there.
unfoldable pub insert_user : Str → AuthData → AuthTable → AuthTable
unfolding find_user
insert_user login d t = if is_some (find_user login t) then t else append_user login d t

-- `table.erase(it)`, of the entry of the login
unfoldable pub erase_user : Str → AuthTable → AuthTable
erase_user login [] = []
erase_user login ((name, d) ∷ t) = if str_eq name login then t else (name, d) ∷ erase_user login t
