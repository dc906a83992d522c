-- ===== src/Tests/Messages.antt =====
-- Messages and the config file, with the toy JSON library.
use gate_control.Base.{List, [], ◌∷◌, none, some, ◌≡◌, ◌≢◌, ◌↔◌, refl, true}
use gate_control.Base.Text.{Str, codes, str_eq}
use gate_control.Base.Outcome.{ok, undefined}
use gate_control.AuthTable.Types.{AuthData, control}
use gate_control.Message.{
  MessageType, query_state, JsonMessage, type_to_str, str_to_type, dump_message, parse_message,
}
use gate_control.Message.RoundTrip.{
  str_to_type_iff, str_to_type_undefined, parse_message-dump_message, parse_message_undefined,
}
use gate_control.Config.{MapEntry, GcConfig, validate_config, validate_map_entry, jsonify_maps}
use gate_control.Config.Visible.{Lists, jsonify_maps-Lists}
use gate_control.Tests.ToyJson.{toy, toy_laws, toy_reads_back, config_json, one_config}

str_to_type_iff_example :
    (str_to_type (codes "text") ≡ ok query_state) ↔ (codes "text" ≡ type_to_str query_state)
str_to_type_iff_example = str_to_type_iff (codes "text") query_state

abbrev query : JsonMessage toy
query = record { type = query_state; payload = toy.null }

abbrev query_text : Str
query_text = 1 ∷ codes "query_state"

query_written : dump_message toy query ≡ ok query_text
unfolding dump_message toy type_to_str str_eq
query_written = refl

parse_message-dump_message_example : parse_message toy query_text ≡ ok query
parse_message-dump_message_example =
    parse_message-dump_message toy toy_laws query query_text (toy_reads_back (codes "query_state"))
      query_written

-- The type of the Arduino's error messages.
error_unknown : (t : MessageType) → codes "error" ≢ type_to_str t
unfolding str_to_type str_eq
error_unknown = (str_to_type_undefined (codes "error")).0 refl

parse_message_undefined_example : parse_message toy (1 ∷ codes "error") ≡ undefined
unfolding toy
parse_message_undefined_example =
    parse_message_undefined toy toy_laws (1 ∷ codes "error") (codes "error") toy.null refl
      error_unknown

one_config_valid : validate_config config_json one_config ≡ true
unfolding config_json one_config validate_config validate_map_entry str_eq
one_config_valid = refl

abbrev first_map : MapEntry toy
first_map = record {
  id = codes "m1";
  group = some (codes "g1");
  map_image_path = codes "a.png";
  gate_config = toy.null;
}

abbrev second_map : MapEntry toy
second_map = record first_map { id = codes "m2"; group = none }

abbrev two_maps : List (MapEntry toy)
two_maps = first_map ∷ second_map ∷ []

abbrev guard_user : AuthData
guard_user = record { permissions = control; map_groups = codes "g2" ∷ []; password = codes "p" }

jsonify_maps-Lists_example : Lists toy guard_user two_maps (jsonify_maps toy guard_user two_maps)
jsonify_maps-Lists_example = jsonify_maps-Lists toy guard_user two_maps

abbrev config : GcConfig toy
config = record { maps = two_maps }
