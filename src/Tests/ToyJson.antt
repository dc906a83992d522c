-- ===== src/Tests/ToyJson.antt =====
-- A JSON library that meets the laws. It writes and reads one kind of object only: a message
-- without a payload.
pub mod Codec
use gate_control.Base.{
  ℕ, Bool, true, false, ◌&&◌, ◌||◌, List, [], ◌∷◌, Option, none, some, if◌then◌else◌, ◌≡◌, refl,
  arith, Bool-cases, inl, inr,
}
use gate_control.Base.Text.{Str, codes, str_eq}
use gate_control.Base.Text.Laws.{str_eq→eq}
use gate_control.Base.Outcome.{Outcome, ok, raised}
use gate_control.Json.{JsonLib, JsonLaws, lookup}

mutual
  pub data Value : Type 0 where
    nothing : Value
    text : Str → Value
    number : ℕ → Value
    array : Items → Value
    object : Fields → Value

  pub data Items : Type 0 where
    no_items : Items
    item : Value → Items → Items

  pub data Fields : Type 0 where
    no_fields : Fields
    field : Str → Value → Fields → Fields

pub to_items : List Value → Items
to_items [] = no_items
to_items (v ∷ vs) = item v (to_items vs)

pub from_items : Items → List Value
from_items no_items = []
from_items (item v vs) = v ∷ from_items vs

pub to_fields : List (Str × Value) → Fields
to_fields [] = no_fields
to_fields ((k, v) ∷ fs) = field k v (to_fields fs)

pub get_field : Str → Fields → Value
get_field k no_fields = nothing
get_field k (field j v fs) = if str_eq j k then v else get_field k fs

member : Value → Str → Value
member (object fs) k = get_field k fs
member _ k = nothing

is_object : Value → Bool
is_object (object x) = true
is_object _ = false

is_array : Value → Bool
is_array (array x) = true
is_array _ = false

is_string : Value → Bool
is_string (text x) = true
is_string _ = false

is_null : Value → Bool
is_null nothing = true
is_null _ = false

is_number : Value → Bool
is_number (number x) = true
is_number _ = false

is_structured : Value → Bool
is_structured (array x) = true
is_structured (object x) = true
is_structured _ = false

is_primitive : Value → Bool
is_primitive (array x) = false
is_primitive (object x) = false
is_primitive _ = true

items : Value → List Value
unfolding from_items
items (array xs) = from_items xs
items _ = []

as_string : Value → Outcome Str
as_string (text s) = ok s
as_string _ = raised

-- The text of a message is a mark and the name of its type.
dump : Value → Outcome Str
dump (object (field k (text name) (field j nothing no_fields))) =
    if str_eq k (codes "type") && str_eq j (codes "payload") then ok (1 ∷ name) else raised
dump _ = raised

abbrev message : Str → Value
message name = object (field (codes "type") (text name) (field (codes "payload") nothing no_fields))

parse : Str → Option Value
parse [] = none
parse (c ∷ name) = some (message name)

unfoldable pub toy : JsonLib
unfolding to_items to_fields member get_field is_object is_array is_string is_null is_number
    is_structured is_primitive items as_string dump parse
toy = record {
  Value = Value;
  null = nothing;
  of_string = text;
  of_array = λ vs. array (to_items vs);
  of_object = λ fs. object (to_fields fs);
  of_number = number;
  parse = parse;
  dump = dump;
  is_object = is_object;
  is_array = is_array;
  is_string = is_string;
  is_null = is_null;
  is_number_unsigned = is_number;
  is_primitive = is_primitive;
  is_structured = is_structured;
  member = member;
  items = items;
  as_string = as_string;
}

pub get_field-to_fields :
    (fs : List (Str × Value)) (k : Str) (v : Value)
    → lookup k fs ≡ some v
    → get_field k (to_fields fs) ≡ v
unfolding get_field to_fields lookup
get_field-to_fields [] k v h = cc
get_field-to_fields ((j, w) ∷ fs) k v h = ground (arith, get_field-to_fields fs k v)

as_string-defined : (v : Value) → is_string v ≡ true → (s : Str) × (as_string v ≡ ok s)
unfolding is_string as_string
as_string-defined (text s) h = (s, refl)
as_string-defined nothing h = absurd (cc h)
as_string-defined (number n) h = absurd (cc h)
as_string-defined (array x) h = absurd (cc h)
as_string-defined (object x) h = absurd (cc h)

primitive_or_structured : (v : Value) → (is_primitive v || is_structured v) ≡ true
unfolding is_primitive is_structured
primitive_or_structured nothing = refl
primitive_or_structured (text s) = refl
primitive_or_structured (number n) = refl
primitive_or_structured (array x) = refl
primitive_or_structured (object x) = refl

pub toy_laws : JsonLaws toy
unfolding toy
toy_laws = record {
  string_is_string = λ s. refl;
  string_as_string = λ s. refl;
  as_string_defined = as_string-defined;
  object_is_object = λ fs. refl;
  object_member = get_field-to_fields;
  primitive_or_structured = primitive_or_structured;
}

-- The same library, with a parser that reads one value and a writer that never throws.
abbrev pub one_map : Value
one_map = array (
    item
      (object (
        field (codes "id") (text (codes "m1")) (
          field (codes "group") (text (codes "g1")) (
            field (codes "mapImage") (text (codes "a.png"))
              (field (codes "gates") (array no_items) no_fields)))))
      no_items)

unfoldable pub config_json : JsonLib
unfolding toy
config_json = record toy { parse = λ s. some one_map; dump = λ v. ok [] }

unfoldable pub one_config : config_json.Value
unfolding config_json
one_config = one_map

pub config_laws : JsonLaws config_json
unfolding config_json
config_laws = record {
  string_is_string = λ s. refl;
  string_as_string = λ s. refl;
  as_string_defined = as_string-defined;
  object_is_object = λ fs. refl;
  object_member = get_field-to_fields;
  primitive_or_structured = primitive_or_structured;
}

-- What is written as a message's text is that message.
pub toy_reads_back :
    (name : Str) (v : toy.Value) → toy.dump v ≡ ok (1 ∷ name) → toy.parse (1 ∷ name) ≡ some v
unfolding toy
toy_reads_back name (object (field k (text n) (field j nothing no_fields))) h =
    elim (Bool-cases (str_eq k (codes "type"))) [
      | inr other ↦ absurd (ground arith)
      | inl first ↦ elim (Bool-cases (str_eq j (codes "payload"))) [
        | inr other ↦ absurd (ground arith)
        | inl second ↦
            let ek = str_eq→eq k (codes "type") first in
            let ej = str_eq→eq j (codes "payload") second in
            let en : n ≡ name = ground arith in rw (ek, ej, en)
      ]
    ]
toy_reads_back name v h = absurd (cc h)
