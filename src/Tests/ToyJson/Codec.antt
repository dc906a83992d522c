-- ===== src/Tests/ToyJson/Codec.antt =====
-- The toy library with a writer of every value, and a parser that reads it back: a stack machine.
use gate_control.Base.{
  ℕ, zero, suc, Bool, false, List, [], ◌∷◌, ◌++◌, append_assoc, append-nil, length, arith, Option,
  none, some, map, ◌==◌, ◌≡◌, refl, sym, ap, ◌∙◌,
}
use gate_control.Base.Text.{Str}
use gate_control.Base.Outcome.{ok, ok-elim}
use gate_control.Json.{JsonLib, JsonLaws}
use gate_control.Firmware.Library.{Library, SquaresUnit}
use gate_control.System.{Wire, BackWire}
use gate_control.Tests.ToyBoard.{toy_board, toy_squares}
use gate_control.Tests.ToyJson.{
  Value, nothing, text, number, array, object, Items, no_items, item, Fields, no_fields, field, toy,
  to_items, to_fields, as_string-defined, get_field-to_fields, primitive_or_structured,
}

-- The characters of a name, and the values that stand open.
pub data Machine : Type 0 where
  machine : Str → List Value → List Items → List Fields → Machine

step : ℕ → Machine → Machine
step zero (machine r vs is fs) = machine r (nothing ∷ vs) is fs
step (suc zero) (machine r vs is fs) = machine [] (text r ∷ vs) is fs
step (suc (suc zero)) (machine (n ∷ r) vs is fs) = machine [] (number n ∷ vs) is fs
step (suc (suc (suc zero))) (machine r vs (xs ∷ is) fs) = machine r (array xs ∷ vs) is fs
step (suc (suc (suc (suc zero)))) (machine r vs is fs) = machine r vs (no_items ∷ is) fs
step (suc (suc (suc (suc (suc zero))))) (machine r (v ∷ vs) (xs ∷ is) fs) =
    machine r vs (item v xs ∷ is) fs
step (suc (suc (suc (suc (suc (suc zero)))))) (machine r vs is (f ∷ fs)) =
    machine r (object f ∷ vs) is fs
step (suc (suc (suc (suc (suc (suc (suc zero))))))) (machine r vs is fs) =
    machine r vs is (no_fields ∷ fs)
step (suc (suc (suc (suc (suc (suc (suc (suc zero)))))))) (machine k (v ∷ vs) is (f ∷ fs)) =
    machine [] vs is (field k v f ∷ fs)
step (suc (suc (suc (suc (suc (suc (suc (suc (suc c))))))))) (machine r vs is fs) =
    machine (r ++ c ∷ []) vs is fs
step _ m = m

run : Str → Machine → Machine
unfolding step
run [] m = m
run (c ∷ s) m = run s (step c m)

abbrev shifted : ℕ → ℕ
shifted c = suc (suc (suc (suc (suc (suc (suc (suc (suc c))))))))

abbrev chars : Str → Str
chars [] = []
chars (c ∷ s) = shifted c ∷ chars s

mutual
  encode : Value → Str
  encode nothing = 0 ∷ []
  encode (text s) = chars s ++ 1 ∷ []
  encode (number n) = shifted n ∷ 2 ∷ []
  encode (array xs) = encode_items xs ++ 3 ∷ []
  encode (object fs) = encode_fields fs ++ 6 ∷ []

  encode_items : Items → Str
  encode_items no_items = 4 ∷ []
  encode_items (item v xs) = encode_items xs ++ encode v ++ 5 ∷ []

  encode_fields : Fields → Str
  encode_fields no_fields = 7 ∷ []
  encode_fields (field k v fs) = encode_fields fs ++ encode v ++ chars k ++ 8 ∷ []

run-chars :
    (s t r : Str) (vs : List Value) (is : List Items) (fs : List Fields)
    → run (chars s ++ t) (machine r vs is fs) ≡ run t (machine (r ++ s) vs is fs)
unfolding run
run-chars [] t r vs is fs = ap (λ k. run t (machine k vs is fs)) (sym (append-nil r))
run-chars (c ∷ s) t r vs is fs =
    run-chars s t (r ++ c ∷ []) vs is fs
    ∙ ap (λ k. run t (machine k vs is fs)) (append_assoc r (c ∷ []) s)

mutual
  unfolding run encode encode_items encode_fields

  run-encode :
      (v : Value) (t : Str) (vs : List Value) (is : List Items) (fs : List Fields)
      → run (encode v ++ t) (machine [] vs is fs) ≡ run t (machine [] (v ∷ vs) is fs)
  run-encode nothing t vs is fs = refl
  run-encode (text s) t vs is fs =
      ap (λ k. run k (machine [] vs is fs)) (append_assoc (chars s) (1 ∷ []) t)
      ∙ run-chars s (1 ∷ t) [] vs is fs
  run-encode (number n) t vs is fs = refl
  run-encode (array xs) t vs is fs =
      ap (λ k. run k (machine [] vs is fs)) (append_assoc (encode_items xs) (3 ∷ []) t)
      ∙ run-encode_items xs (3 ∷ t) vs is fs
  run-encode (object f) t vs is fs =
      ap (λ k. run k (machine [] vs is fs)) (append_assoc (encode_fields f) (6 ∷ []) t)
      ∙ run-encode_fields f (6 ∷ t) vs is fs

  run-encode_items :
      (xs : Items) (t : Str) (vs : List Value) (is : List Items) (fs : List Fields)
      → run (encode_items xs ++ t) (machine [] vs is fs) ≡ run t (machine [] vs (xs ∷ is) fs)
  run-encode_items no_items t vs is fs = refl
  run-encode_items (item v xs) t vs is fs =
      ap (λ k. run k (machine [] vs is fs))
        (append_assoc (encode_items xs ++ encode v) (5 ∷ []) t
          ∙ append_assoc (encode_items xs) (encode v) (5 ∷ t))
      ∙ run-encode_items xs (encode v ++ 5 ∷ t) vs is fs
      ∙ run-encode v (5 ∷ t) vs (xs ∷ is) fs

  run-encode_fields :
      (f : Fields) (t : Str) (vs : List Value) (is : List Items) (fs : List Fields)
      → run (encode_fields f ++ t) (machine [] vs is fs) ≡ run t (machine [] vs is (f ∷ fs))
  run-encode_fields no_fields t vs is fs = refl
  run-encode_fields (field k v f) t vs is fs =
      ap (λ k. run k (machine [] vs is fs))
        (append_assoc (encode_fields f ++ encode v ++ chars k) (8 ∷ []) t
          ∙ append_assoc (encode_fields f ++ encode v) (chars k) (8 ∷ t)
          ∙ append_assoc (encode_fields f) (encode v) (chars k ++ 8 ∷ t))
      ∙ run-encode_fields f (encode v ++ (chars k ++ 8 ∷ t)) vs is fs
      ∙ run-encode v (chars k ++ 8 ∷ t) vs is (f ∷ fs)
      ∙ run-chars k (8 ∷ t) [] (v ∷ vs) is (f ∷ fs)

abbrev value_of : Machine → Option Value
value_of (machine r [] is fs) = none
value_of (machine r (v ∷ vs) is fs) = some v

-- The text of a value begins with a mark, on which the machine does nothing.
pub dump : Value → Str
unfolding encode
dump v = 5 ∷ encode v

pub parse : Str → Option Value
unfolding run
parse s = value_of (run s (machine [] [] [] []))

pub dump-not_empty : (v : Value) → (length (dump v) == 0) ≡ false
unfolding dump
dump-not_empty v = ground arith

pub parse-dump : (v : Value) → parse (dump v) ≡ some v
unfolding parse dump step
parse-dump v =
    ap (λ s. value_of (run s (machine [] [] [] []))) (sym (append-nil (encode v)))
    ∙ ap value_of (run-encode v [] [] [] [])

unfoldable pub wire_json : JsonLib
unfolding toy dump parse
wire_json = record toy { parse = parse; dump = λ v. ok (dump v) }

pub wire_laws : JsonLaws wire_json
unfolding wire_json
wire_laws = record {
  string_is_string = λ s. refl;
  string_as_string = λ s. refl;
  as_string_defined = as_string-defined;
  object_is_object = λ fs. refl;
  object_member = get_field-to_fields;
  primitive_or_structured = primitive_or_structured;
}

text_of : Value → Option Str
text_of (text s) = some s
text_of _ = none

number_of : Value → Option ℕ
number_of (number n) = some n
number_of _ = none

flag_of : Value → Option Bool
flag_of (number n) = some (n == 1)
flag_of _ = none

unfoldable pub or_nothing : Option Value → Value
or_nothing none = nothing
or_nothing (some v) = v

-- The library of the board: the same texts. A number says which state is meant.
unfoldable pub wire_board : Library
unfolding wire_json text_of number_of flag_of or_nothing
wire_board = record {
  Value = Value;
  of_string = text;
  of_unsigned = number;
  of_array = wire_json.of_array;
  of_object = wire_json.of_object;
  is_null = wire_json.is_null;
  member = wire_json.member;
  as_string = text_of;
  is_object = wire_json.is_object;
  as_array = λ _. none;
  as_unsigned = number_of;
  as_bool = flag_of;
  serialize = dump;
  deserialize = λ s. (or_nothing (parse s), []);
  powf = toy_board.powf;
}

map-same : (vs : List Value) → map (λ v. v) vs ≡ vs
map-same [] = refl
map-same (v ∷ vs) = ap (◌∷◌ v) (map-same vs)

map-same_fields : (fs : List (Str × Value)) → map (λ (k, v). (k, v)) fs ≡ fs
map-same_fields [] = refl
map-same_fields (f ∷ fs) = ap (◌∷◌ f) (map-same_fields fs)

abbrev with_rest : Value → Value × Str
with_rest v = (v, [])

abbrev reads : Str → Value × Str
reads s = with_rest (or_nothing (parse s))

unfoldable pub wire : Wire wire_json wire_board
unfolding wire_board wire_json toy dump
wire = record {
  seen = λ v. v;
  dump_not_empty = λ v t e. ok-elim (λ t. (length t == 0) ≡ false) e (dump-not_empty v);
  deserialize_dump = λ v t e.
      ok-elim (λ t. reads t ≡ with_rest v) e (ap (λ o. with_rest (or_nothing o)) (parse-dump v));
  seen_object = λ fs. refl;
  seen_member = get_field-to_fields;
  seen_type = λ t. refl;
}

pub back_wire : BackWire wire_json wire_board
unfolding wire_board wire_json toy dump
back_wire = record {
  told = λ v. v;
  serialize_not_empty = λ v _. dump-not_empty v;
  parse_serialize = λ v _. parse-dump v;
  told_string = λ s. refl;
  told_unsigned = λ n. refl;
  told_array = λ vs. ap (λ l. array (to_items l)) (sym (map-same vs));
  told_object = λ fs. ap (λ l. object (to_fields l)) (sym (map-same_fields fs));
}

pub wire_squares : SquaresUnit wire_board.powf
unfolding wire_board
wire_squares = toy_squares
