-- ===== src/Config/Parsing.antt =====
-- What the config file's validation is good for.
use gate_control.Base.{List, [], ◌∷◌, ◌≡◌}
use gate_control.Base.Text.{codes}
use gate_control.Base.Outcome.{ok}
use gate_control.Json.{JsonLib, JsonLaws}
use gate_control.Config.{MapEntry, read_group}

module _ (J : JsonLib) (laws : JsonLaws J) where
  -- What a map entry says of its JSON value.
  pub record Describes (v : J.Value) (m : MapEntry J) : Type 0 where
    pub id_read : J.as_string (J.member v (codes "id")) ≡ ok m.id
    pub path_read : J.as_string (J.member v (codes "mapImage")) ≡ ok m.map_image_path
    pub group_read : read_group J (J.member v (codes "group")) ≡ ok m.group
    pub gates_read : J.member v (codes "gates") ≡ m.gate_config

  -- A list of entries for a list of values, in order.
  pub data DescribesAll : List J.Value → List (MapEntry J) → Type 0 where
    end : DescribesAll [] []
    next :
        {v : J.Value} {m : MapEntry J} {vs : List J.Value} {ms : List (MapEntry J)}
        → Describes v m
        → DescribesAll vs ms
        → DescribesAll (v ∷ vs) (m ∷ ms)
