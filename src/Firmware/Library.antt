-- ===== src/Firmware/Library.antt =====
-- What the sketch uses of the library ArduinoJson and of `powf`: parameters of the model.
use gate_control.Base.{ℕ, Bool, List, Option, ◌≤◌, ◌≡◌}
use gate_control.Base.Int.{pos}
use gate_control.Base.Text.{Str}
use gate_control.Firmware.Float.{Float, one_units, two_float}

pub record Library : Type 1 where
  pub Value : Type 0
  pub of_string : Str → Value
  pub of_unsigned : ℕ → Value
  pub of_array : List Value → Value
  pub of_object : List (Str × Value) → Value
  pub is_null : Value → Bool
  -- `operator[]`, which gives null where there is no such member.
  pub member : Value → Str → Value
  -- `is<const char*>`, and `as<const char*>` where it holds: the bytes up to a NUL.
  pub as_string : Value → Option Str
  pub is_object : Value → Bool
  pub as_array : Value → Option (List Value)
  pub as_unsigned : Value → Option ℕ
  pub as_bool : Value → Option Bool
  pub serialize : Value → Str
  -- The document at the start of the bytes, and the bytes that are left.
  pub deserialize : Str → Value × Str
  pub powf : Float → Float → Float

-- What the documentation says of `powf`: the square of a float from 0 to 1 is from 0 to 1.
abbrev pub SquaresUnit : (Float → Float → Float) → Type 0
SquaresUnit powf =
    (n : ℕ) → n ≤ one_units → (m : ℕ) × (powf (pos n) two_float ≡ pos m) × (m ≤ one_units)
