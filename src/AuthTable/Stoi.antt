-- ===== src/AuthTable/Stoi.antt =====
-- `std::stoi` on bytes, and the permissions that the auth-file's second field stands for.
use gate_control.Base.{
  ℕ, ◌+◌, ◌-◌, ◌*◌, ◌^◌, Bool, true, false, ◌&&◌, ◌||◌, [], ◌∷◌, Option, none, some, leb, ◌==◌,
  if◌then◌else◌,
}
use gate_control.Base.Text.{Str}
use gate_control.Base.Int.{ℤ, pos, minus, to_unsigned}
use gate_control.AuthTable.Types.{AuthorizationType, blocked, view, control}

abbrev pub is_space : ℕ → Bool
is_space c = c == b' ' || leb 9 c && leb c 13

abbrev pub is_digit : ℕ → Bool
is_digit c = leb b'0' c && leb c b'9'

unfoldable pub skip_spaces : Str → Str
skip_spaces [] = []
skip_spaces (c ∷ s) = if is_space c then skip_spaces s else c ∷ s

-- The value of the digits that the text begins with; `none` where it begins with none.
digits_from : ℕ → Str → ℕ
digits_from acc [] = acc
digits_from acc (c ∷ s) =
    let more = digits_from (acc * 10 + (c - b'0')) s in if is_digit c then more else acc

leading_digits : Str → Option ℕ
unfolding digits_from
leading_digits [] = none
leading_digits (c ∷ s) = if is_digit c then some (digits_from 0 (c ∷ s)) else none

-- An `int` has 32 bits; a value beyond is `out_of_range`.
in_range : Bool → ℕ → Option ℤ
in_range negative n =
    if negative
    then if leb n (2 ^ 31) then some (minus n) else none
    else if leb n (2 ^ 31 - 1)
    then some (pos n)
    else none

signed : Bool → Str → Option ℤ
unfolding leading_digits in_range
signed negative s = elim (leading_digits s) [ none ↦ none | some n ↦ in_range negative n ]

after_spaces : Str → Option ℤ
unfolding signed
after_spaces [] = none
after_spaces (c ∷ s) =
    if c == b'-' then signed true s else if c == b'+' then signed false s else signed false (c ∷ s)

-- `none` where `std::stoi` throws. What follows the digits is ignored.
unfoldable pub stoi : Str → Option ℤ
unfolding skip_spaces after_spaces
stoi s = after_spaces (skip_spaces s)

-- `static_cast<AuthorizationType>` of a value that passed `permissions > 2`
unfoldable pub to_permissions : ℕ → Option AuthorizationType
to_permissions n =
    if n == 0
    then some blocked
    else if n == 1
    then some view
    else if n == 2
    then some control
    else none

-- The conversion, its `catch`, and the test of the range.
unfoldable pub parse_permissions : Str → Option AuthorizationType
unfolding stoi to_permissions
parse_permissions s = elim (stoi s) [ none ↦ none | some i ↦ to_permissions (to_unsigned i) ]
