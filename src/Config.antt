-- ===== src/Config.antt =====
-- src/config.hpp: the maps with their gates, read from the config file, and what a client sees.
pub mod Parsing
pub mod Visible
use gate_control.Base.{
  ℕ, Bool, true, false, not, ◌&&◌, ◌||◌, List, [], ◌∷◌, ◌++◌, Option, none, some, if◌then◌else◌,
  all, any, map, leb,
}
use gate_control.Base.Text.{Str, codes, str_eq}
use gate_control.Base.Outcome.{Outcome, ok, raised, ◌>>=◌, or_raise}
use gate_control.Json.{JsonLib}
use gate_control.AuthTable.Types.{AuthData, AuthorizationType, control, rank}

-- The test of the loop in `get_maps_for_client`: a user with the control permissions does not see
-- a group's map unless it is one of that user's groups.
abbrev pub hides : AuthorizationType → List Str → Option Str → Bool
hides permissions groups none = false
hides permissions groups (some g) =
    leb (rank control) (rank permissions) && not (any (str_eq g) groups)

module _ (J : JsonLib) where
  pub record MapEntry : Type 0 where
    pub id : Str
    pub group : Option Str
    pub map_image_path : Str
    pub gate_config : J.Value

  abbrev group_value : Option Str → J.Value
  group_value none = J.null
  group_value (some g) = J.of_string g

  unfoldable pub to_json : MapEntry → J.Value
  to_json m = J.of_object (
      (codes "id", J.of_string m.id)
      ∷ (codes "group", group_value m.group)
      ∷ (codes "mapImage", J.of_string m.map_image_path)
      ∷ (codes "gates", m.gate_config)
      ∷ [])

  unfoldable pub to_client_json : MapEntry → J.Value
  to_client_json m = J.of_object (
      (codes "id", J.of_string m.id)
      ∷ (codes "group", group_value m.group)
      ∷ (codes "gates", m.gate_config)
      ∷ [])

  pub record GcConfig : Type 0 where
    pub maps : List MapEntry

  unfoldable pub validate_gate_entry : J.Value → Bool
  validate_gate_entry entry =
      J.is_object entry
      && J.is_number_unsigned (J.member entry (codes "x"))
      && J.is_number_unsigned (J.member entry (codes "y"))
      && J.is_number_unsigned (J.member entry (codes "id"))

  abbrev not_a_map : J.Value → Bool
  not_a_map entry =
      not (J.is_object entry)
      || not (J.is_string (J.member entry (codes "id")))
      || not (J.is_string (J.member entry (codes "group")))
        && not (J.is_null (J.member entry (codes "group")))
      || not (J.is_string (J.member entry (codes "mapImage")))
      || not (J.is_array (J.member entry (codes "gates")))

  unfoldable pub validate_map_entry : J.Value → Bool
  unfolding validate_gate_entry
  validate_map_entry entry =
      if not_a_map entry
      then false
      else all validate_gate_entry (J.items (J.member entry (codes "gates")))

  unfoldable pub validate_config : J.Value → Bool
  validate_config config_json =
      if not (J.is_array config_json) then false else all validate_map_entry (J.items config_json)

  abbrev read_group : J.Value → Outcome (Option Str)
  read_group v = if J.is_string v then (J.as_string v >>= λ g. ok (some g)) else ok none

  -- The body of the loop in `parse`.
  unfoldable pub read_map : J.Value → Outcome MapEntry
  read_map v = do
    group ← read_group (J.member v (codes "group"))
    id ← J.as_string (J.member v (codes "id"))
    path ← J.as_string (J.member v (codes "mapImage"))
    ok (record {
      id = id;
      group = group;
      map_image_path = path;
      gate_config = J.member v (codes "gates");
    })

  unfoldable pub read_maps : List J.Value → Outcome (List MapEntry)
  read_maps [] = ok []
  read_maps (v ∷ vs) = read_map v >>= λ m. read_maps vs >>= λ ms. ok (m ∷ ms)

  unfoldable pub config_of : J.Value → Outcome GcConfig
  config_of v =
      if not (validate_config v)
      then raised
      else read_maps (J.items v) >>= λ ms. ok (record { maps = ms })

  -- `gc_config::parse`
  unfoldable pub parse_config : Str → Outcome GcConfig
  parse_config json = or_raise (J.parse json) >>= config_of

  -- The argument is what the file holds; `none` is a file that cannot be opened.
  unfoldable pub open_from_file : Option Str → Outcome (Option GcConfig)
  open_from_file none = ok none
  open_from_file (some contents) = parse_config contents >>= λ c. ok (some c)

  unfoldable pub is_hidden : AuthData → MapEntry → Bool
  is_hidden user m = hides user.permissions user.map_groups m.group

  unfoldable pub jsonify_maps : AuthData → List MapEntry → List J.Value
  jsonify_maps user [] = []
  jsonify_maps user (m ∷ ms) =
      let rest = jsonify_maps user ms in if is_hidden user m then rest else to_client_json m ∷ rest

  unfoldable pub get_maps_for_client : GcConfig → AuthData → Outcome Str
  get_maps_for_client c user = J.dump (J.of_array (jsonify_maps user c.maps))

  unfoldable pub find_map : Str → List MapEntry → Outcome MapEntry
  find_map id [] = raised
  find_map id (m ∷ ms) = if str_eq m.id id then ok m else find_map id ms

  unfoldable pub get_map_by_id : GcConfig → Str → Outcome MapEntry
  get_map_by_id c id = find_map id c.maps
