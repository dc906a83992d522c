-- ===== src/Tests/Programs.antt =====
-- The configurator at a keyboard, and the server's arguments.
use gate_control.Base.{Bool, List, [], ◌∷◌, Option, none, some, ◌≡◌, refl, false, arith}
use gate_control.Base.Text.{Str, codes, str_eq, starts_with, find_char, find_from, to_lower}
use gate_control.Base.Outcome.{ok}
use gate_control.AuthTable.Types.{AuthData, view, find_user, insert_user, erase_user}
use gate_control.AuthTable.Types.Laws.{HasDistinctLogins}
use gate_control.AuthTable.Split.{split_str, split_from}
use gate_control.AuthTable.Stoi.{parse_permissions, stoi}
use gate_control.AuthTable.File.{open_auth_table_from_file, parse_line, lines, add_lines, add_line}
use gate_control.AuthTable.File.Lines.{IsStorable}
use gate_control.AuthTable.File.Logins.{find_user-colon}
use gate_control.Configurator.{
  State, no_file, set_file_path, add_to, delete_from, add_new_user, get_confirmation, Edits, start,
  sets_path, adds,
}
use gate_control.Configurator.Users.{IsAdded, IsDeleted, add_to-IsAdded, delete_from-IsDeleted}
use gate_control.Config.{
  GcConfig, open_from_file, parse_config, config_of, validate_config, validate_map_entry,
  validate_gate_entry, read_maps, read_map,
}
use gate_control.Startup.{Setup, start as start_server, port_of, address_of}
use gate_control.Startup.Arguments.{IsSetup, start-IsSetup}
use gate_control.Tests.Login.{users}
use gate_control.Tests.ToyJson.{config_json}

abbrev amy : AuthData
amy = record {
  permissions = view;
  map_groups = codes "g1" ∷ codes "g2" ∷ [];
  password = codes "pw";
}

-- A login that is taken, an empty password and permissions that are none are asked for again.
abbrev typed : List Str
typed = codes "john" ∷ codes "amy" ∷ [] ∷ codes "pw" ∷ codes "7" ∷ codes "1" ∷ codes "g1;g2" ∷ []

users-HasDistinctLogins : HasDistinctLogins users
unfolding find_user
users-HasDistinctLogins = (refl, tt)

added : add_to typed users ≡ some (insert_user (codes "amy") amy users, [])
unfolding add_to find_user str_eq parse_permissions split_str split_from find_from
added = refl

add_to-IsAdded_example :
    IsAdded typed [] users (insert_user (codes "amy") amy users)
    × HasDistinctLogins (insert_user (codes "amy") amy users)
add_to-IsAdded_example =
    add_to-IsAdded typed [] users (insert_user (codes "amy") amy users) users-HasDistinctLogins
      added

deleted : delete_from ([] ∷ codes "john" ∷ []) users ≡ some ([], [])
unfolding delete_from find_user erase_user str_eq
deleted = refl

delete_from-IsDeleted_example :
    IsDeleted ([] ∷ codes "john" ∷ []) [] users [] × HasDistinctLogins []
delete_from-IsDeleted_example =
    delete_from-IsDeleted ([] ∷ codes "john" ∷ []) [] users [] users-HasDistinctLogins deleted

abbrev exists : Str → Bool
exists path = false

abbrev nothing : Str → Option Str
nothing path = none

abbrev created : State
created = record { auth_file_path = some (codes "auth"); auth_table = some [] }

abbrev with_amy : State
with_amy = record {
  auth_file_path = some (codes "auth");
  auth_table = some ((codes "amy", amy) ∷ []);
}

file_created :
    set_file_path exists nothing (codes "auth") (codes "maybe" ∷ codes "Yes" ∷ []) no_file
    ≡ some (created, [])
unfolding set_file_path get_confirmation starts_with to_lower
file_created = refl

amy_added :
    add_new_user (codes "amy" ∷ codes "pw" ∷ codes "1" ∷ codes "g1;g2" ∷ []) created
    ≡ some (with_amy, [])
unfolding add_new_user find_user str_eq parse_permissions split_str split_from find_from insert_user
amy_added = refl

edits : Edits no_file with_amy
edits =
    adds {s = created} {s' = with_amy} (codes "amy" ∷ codes "pw" ∷ codes "1" ∷ codes "g1;g2" ∷ [])
      []
      (sets_path {s = no_file} {s' = created} exists nothing (codes "auth")
        (codes "maybe" ∷ codes "Yes" ∷ []) [] start file_created)
      amy_added

amy-IsStorable : IsStorable (codes "amy") amy
amy-IsStorable = record {
  login_field = ground arith;
  login_line = ground arith;
  groups_item = ground arith;
  groups_field = ground arith;
  groups_line = ground arith;
  groups_some = λ e. cc e;
  password_line = ground arith;
}

abbrev colon_file : Str
colon_file = codes "a:b:2::pw"

colon_read : open_auth_table_from_file (some colon_file) ≡ some []
unfolding open_auth_table_from_file add_lines add_line parse_line lines find_char find_from
    parse_permissions
colon_read = refl

find_user-colon_example : find_user (codes "a:b") [] ≡ none
find_user-colon_example =
    find_user-colon colon_file (codes "a:b") [] colon_read (λ lacks. lacks.1.0 refl)

abbrev argv : List Str
argv =
    codes "gate-control"
    ∷ codes "COM3"
    ∷ codes "auth"
    ∷ codes "config"
    ∷ codes "10.0.0.1"
    ∷ codes "8080"
    ∷ []

abbrev no_address : Str → Option Str
no_address s = none

abbrev read_file : Str → Option Str
read_file path = some (codes "john:2::secret")

abbrev maps_read : GcConfig config_json
maps_read = record {
  maps =
      record {
        id = codes "m1";
        group = some (codes "g1");
        map_image_path = codes "a.png";
        gate_config = config_json.of_array [];
      }
      ∷ [];
}

abbrev setup : Setup config_json Str no_address (codes "0.0.0.0") read_file
setup = record {
  com_port = codes "COM3";
  address = codes "0.0.0.0";
  port = 8080;
  auth_table = users;
  config = maps_read;
}

served : start_server config_json Str no_address (codes "0.0.0.0") read_file argv ≡ ok (some setup)
unfolding start_server port_of address_of open_auth_table_from_file add_lines add_line parse_line
    lines find_char find_from parse_permissions stoi open_from_file parse_config config_of
    validate_config validate_map_entry validate_gate_entry read_maps read_map config_json str_eq
    split_str insert_user find_user
served = refl

start-IsSetup_example : IsSetup config_json Str no_address (codes "0.0.0.0") read_file argv setup
start-IsSetup_example =
    start-IsSetup config_json Str no_address (codes "0.0.0.0") read_file argv setup served
