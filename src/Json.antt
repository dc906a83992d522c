-- ===== src/Json.antt =====
-- The JSON library (nlohmann::json), as far as the source uses it: a parameter of the model.
use gate_control.Base.{ℕ, Bool, true, ◌||◌, List, [], ◌∷◌, Option, none, some, if◌then◌else◌, ◌≡◌}
use gate_control.Base.Text.{Str, str_eq}
use gate_control.Base.Outcome.{Outcome, ok}

pub record JsonLib : Type 1 where
  pub Value : Type 0
  pub null : Value
  pub of_string : Str → Value
  pub of_array : List Value → Value
  pub of_object : List (Str × Value) → Value
  pub of_number : ℕ → Value
  -- `none` is a parse error, which is thrown.
  pub parse : Str → Option Value
  -- Throws on a string that is not UTF-8.
  pub dump : Value → Outcome Str
  pub is_object : Value → Bool
  pub is_array : Value → Bool
  pub is_string : Value → Bool
  pub is_null : Value → Bool
  pub is_number_unsigned : Value → Bool
  pub is_primitive : Value → Bool
  pub is_structured : Value → Bool
  -- `operator[]` on an object; a key that is missing gives null.
  pub member : Value → Str → Value
  -- The items that a range-based `for` visits.
  pub items : Value → List Value
  -- `get<std::string>`
  pub as_string : Value → Outcome Str

-- The first value of a key.
unfoldable pub lookup {ℓ} : {V : Type ℓ} → Str → List (Str × V) → Option V
lookup k [] = none
lookup k ((j, v) ∷ fs) = if str_eq j k then some v else lookup k fs

-- What its documentation says of it.
pub record JsonLaws (J : JsonLib) : Type 0 where
  pub string_is_string : (s : Str) → J.is_string (J.of_string s) ≡ true
  pub string_as_string : (s : Str) → J.as_string (J.of_string s) ≡ ok s
  pub as_string_defined : (v : J.Value) → J.is_string v ≡ true → (s : Str) × (J.as_string v ≡ ok s)
  pub object_is_object : (fs : List (Str × J.Value)) → J.is_object (J.of_object fs) ≡ true
  pub object_member :
      (fs : List (Str × J.Value)) (k : Str) (v : J.Value)
      → lookup k fs ≡ some v
      → J.member (J.of_object fs) k ≡ v
  pub primitive_or_structured : (v : J.Value) → (J.is_primitive v || J.is_structured v) ≡ true
