-- ===== src/Firmware/Float.antt =====
-- `float` of the board: IEEE single precision, as a count of units of 2 ^ -149, the smallest
-- positive float. A sum of two floats is a count of units too, and is rounded to 24 significant
-- bits, ties to even. There is one zero: `==` of C++ does not tell the two apart, and a sum that is
-- exactly zero is positive. Infinities do not arise below 2 ^ 127.
pub mod Laws
use gate_control.Base.{
  ℕ, zero, suc, ◌+◌, ◌-◌, ◌*◌, ◌/◌, ◌%◌, ◌^◌, Bool, ltb, leb, ◌==◌, if◌then◌else◌,
}
use gate_control.Base.Int.{ℤ, pos, negsuc, minus, ◌+ℤ◌, ◌-ℤ◌, leb_ℤ, ltb_ℤ, eq_ℤ}

abbrev pub Float : Type 0
Float = ℤ

-- The exponents from 2 ^ -149 to 2 ^ 104, the distances of two neighbouring floats.
abbrev pub binades : ℕ
binades = 254

-- The distance of the floats around `n` units.
unfoldable pub ulp : ℕ → ℕ → ℕ
ulp zero n = 1
ulp (suc k) n = let u = ulp k (n / 2) in if ltb n (2 ^ 24) then 1 else 2 * u

-- To the nearest multiple of `u`, where `r` is what `n` leaves over.
abbrev pub nearest : ℕ → ℕ → ℕ → ℕ
nearest u r n =
    if ltb (2 * r) u
    then n - r
    else if ltb u (2 * r)
    then n - r + u
    else if n / u % 2 == 0
    then n - r
    else n - r + u

unfoldable pub round : ℕ → ℕ
unfolding ulp
round n = let u = ulp binades n in nearest u (n % u) n

abbrev pub rounded : ℤ → Float
rounded (pos n) = pos (round n)
rounded (negsuc n) = minus (round (suc n))

infixl 60 ◌+F◌ ◌-F◌
unfoldable pub ◌+F◌ : Float → Float → Float
a +F b = rounded (a +ℤ b)

unfoldable pub ◌-F◌ : Float → Float → Float
a -F b = rounded (a -ℤ b)

-- `0.0F`, `1.0F`, 2 and `0.01F`, which is 10737418 * 2 ^ -30.
abbrev pub zero_float : Float
zero_float = pos 0

abbrev pub one_units : ℕ
one_units = 2 ^ 149

abbrev pub one_float : Float
one_float = pos one_units

abbrev pub two_float : Float
two_float = pos (2 * one_units)

abbrev pub hundredth_units : ℕ
hundredth_units = 10737418 * 2 ^ 119

abbrev pub hundredth_float : Float
hundredth_float = pos hundredth_units

-- `a <= b`, `a < b` and `a == b`
abbrev pub le_float : Float → Float → Bool
le_float a b = leb_ℤ a b

abbrev pub lt_float : Float → Float → Bool
lt_float a b = ltb_ℤ a b

abbrev pub eq_float : Float → Float → Bool
eq_float a b = eq_ℤ a b
