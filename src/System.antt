-- ===== src/System.antt =====
-- The server and the board together: the messages between them are texts, which the one's JSON
-- library writes and the other's reads.
pub mod Command
pub mod Report
use gate_control.Base.{
  Bool, true, false, List, [], ◌∷◌, Option, some, map, length, ◌==◌, ◌≡◌, ℕ, All, ltb,
}
use gate_control.Base.Text.{Str}
use gate_control.Base.Outcome.{ok}
use gate_control.Json.{JsonLib, lookup}
use gate_control.Message.{MessageType, type_to_str}
use gate_control.Firmware.Library.{Library}

-- What JSON is: the board reads what the server wrote.
pub record Wire (J : JsonLib) (L : Library) : Type 0 where
  -- A value of the server, as the board's library reads it.
  pub seen : J.Value → L.Value
  pub dump_not_empty : (v : J.Value) (t : Str) → J.dump v ≡ ok t → (length t == 0) ≡ false
  pub deserialize_dump : (v : J.Value) (t : Str) → J.dump v ≡ ok t → L.deserialize t ≡ (seen v, [])
  pub seen_object : (fs : List (Str × J.Value)) → L.is_null (seen (J.of_object fs)) ≡ false
  pub seen_member :
      (fs : List (Str × J.Value)) (k : Str) (v : J.Value)
      → lookup k fs ≡ some v
      → L.member (seen (J.of_object fs)) k ≡ seen v
  pub seen_type :
      (t : MessageType) → L.as_string (seen (J.of_string (type_to_str t))) ≡ some (type_to_str t)

-- The values of the board's library that are made of numbers and ASCII texts.
mutual
  pub data IsPlain (L : Library) : L.Value → Type 0 where
    plain_unsigned : (n : ℕ) → IsPlain L (L.of_unsigned n)
    plain_string : (s : Str) → All (λ c. ltb c 128 ≡ true) s → IsPlain L (L.of_string s)
    plain_array : (vs : List L.Value) → ArePlain L vs → IsPlain L (L.of_array vs)
    plain_object : (fs : List (Str × L.Value)) → FieldsPlain L fs → IsPlain L (L.of_object fs)

  pub data ArePlain (L : Library) : List L.Value → Type 0 where
    no_items : ArePlain L []
    item : (v : L.Value) (vs : List L.Value) → IsPlain L v → ArePlain L vs → ArePlain L (v ∷ vs)

  pub data FieldsPlain (L : Library) : List (Str × L.Value) → Type 0 where
    no_fields : FieldsPlain L []
    field :
        (k : Str) (v : L.Value) (fs : List (Str × L.Value))
        → All (λ c. ltb c 128 ≡ true) k
        → IsPlain L v
        → FieldsPlain L fs
        → FieldsPlain L ((k, v) ∷ fs)

-- The other way: the server reads what the board wrote of such a value.
pub record BackWire (J : JsonLib) (L : Library) : Type 0 where
  -- A value of the board, as the server's library reads it.
  pub told : L.Value → J.Value
  pub serialize_not_empty : (v : L.Value) → IsPlain L v → (length (L.serialize v) == 0) ≡ false
  pub parse_serialize : (v : L.Value) → IsPlain L v → J.parse (L.serialize v) ≡ some (told v)
  pub told_string : (s : Str) → told (L.of_string s) ≡ J.of_string s
  pub told_unsigned : (n : ℕ) → told (L.of_unsigned n) ≡ J.of_number n
  pub told_array : (vs : List L.Value) → told (L.of_array vs) ≡ J.of_array (map told vs)
  pub told_object :
      (fs : List (Str × L.Value))
      → told (L.of_object fs) ≡ J.of_object (map (λ (k, v). (k, told v)) fs)
