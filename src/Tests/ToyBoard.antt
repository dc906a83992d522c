-- ===== src/Tests/ToyBoard.antt =====
-- A library for the sketch, whose documents are the messages that move a gate.
use gate_control.Base.{
  ℕ, ◌*◌, ◌/◌, ◌≤◌, Bool, true, false, [], Option, none, some, if◌then◌else◌, refl, arith,
}
use gate_control.Base.Int.{pos, negsuc}
use gate_control.Base.Text.{Str, codes, str_eq}
use gate_control.Firmware.Float.{Float, one_units}
use gate_control.Firmware.Library.{Library, SquaresUnit}

pub data Value : Type 0 where
  nothing built : Value
  text : Str → Value
  number : ℕ → Value
  flag : Bool → Value
  change payload : ℕ → Bool → Value

member : Value → Str → Value
unfolding str_eq
member (change id up) k =
    if str_eq k (codes "type")
    then text (codes "change_state")
    else if str_eq k (codes "payload")
    then payload id up
    else nothing
member (payload id up) k =
    if str_eq k (codes "id")
    then number id
    else if str_eq k (codes "state")
    then flag up
    else nothing
member _ k = nothing

is_null : Value → Bool
is_null nothing = true
is_null _ = false

is_object : Value → Bool
is_object (change id up) = true
is_object (payload id up) = true
is_object _ = false

as_string : Value → Option Str
as_string (text s) = some s
as_string _ = none

as_unsigned : Value → Option ℕ
as_unsigned (number n) = some n
as_unsigned _ = none

as_bool : Value → Option Bool
as_bool (flag b) = some b
as_bool _ = none

-- The exact square, rounded down.
square : Float → Float
square (pos n) = pos (n * n / one_units)
square (negsuc n) = pos 0

-- Every text is read as the message that raises the third gate.
unfoldable pub toy_board : Library
unfolding member is_null is_object as_string as_unsigned as_bool square
toy_board = record {
  Value = Value;
  of_string = text;
  of_unsigned = number;
  of_array = λ _. built;
  of_object = λ _. built;
  is_null = is_null;
  member = member;
  as_string = as_string;
  is_object = is_object;
  as_array = λ _. none;
  as_unsigned = as_unsigned;
  as_bool = as_bool;
  serialize = λ _. codes "{}";
  deserialize = λ _. (change 2 true, []);
  powf = λ a b. square a;
}

unfoldable pub raise_third : toy_board.Value
unfolding toy_board
raise_third = change 2 true

square_below : (n m : ℕ) → n ≤ m → n * n ≤ m * m
square_below n m h = grind arith

square_fits : (n : ℕ) → n ≤ one_units → n * n / one_units ≤ one_units
square_fits n h = let le = square_below n one_units h in omega arith

pub toy_squares : SquaresUnit toy_board.powf
unfolding toy_board square
toy_squares n h = (n * n / one_units, refl, square_fits n h)
