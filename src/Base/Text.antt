-- ===== src/Base/Text.antt =====
-- `std::string` and `std::string_view` as the list of their bytes, with the members of the
-- standard library that the source uses. `npos` is `none`. Where the source calls `substr`, the
-- position is at most the length.
pub mod Laws
use Prim.Native.Nat.{ℕ, zero, suc, ◌+◌, ◌-◌}
use Prim.Native.Char.{code}
use Prim.Native.String.{String}
use mathlib.Core.Bool.{Bool, true, false, ◌&&◌, ◌||◌}
use mathlib.Core.Option
use mathlib.Core.Option.{Option, none, some}
use mathlib.Core.List.{List, [], ◌∷◌, map}
use gate_control.Base.Tests.{leb, ◌==◌, if◌then◌else◌}
use gate_control.Base.Lists.{length, take, drop}

abbrev pub Str : Type 0
Str = List ℕ

-- A literal of the source, as its bytes.
abbrev pub codes : String → Str
codes String.[] = []
codes (String.◌∷◌ c s) = code c ∷ codes s

unfoldable pub str_eq : Str → Str → Bool
str_eq [] [] = true
str_eq [] (y ∷ t) = false
str_eq (x ∷ s) [] = false
str_eq (x ∷ s) (y ∷ t) = x == y && str_eq s t

unfoldable pub starts_with : Str → Str → Bool
starts_with s [] = true
starts_with [] (y ∷ p) = false
starts_with (x ∷ s) (y ∷ p) = x == y && starts_with s p

unfoldable pub ends_with : Str → Str → Bool
unfolding str_eq
ends_with s t = leb (length t) (length s) && str_eq (drop (length s - length t) s) t

-- `s.find(c)`
unfoldable pub find_char : ℕ → Str → Option ℕ
find_char c [] = none
find_char c (x ∷ s) = if x == c then some 0 else Option.map suc (find_char c s)

-- `s.find(c, pos)`
unfoldable pub find_from : ℕ → Str → ℕ → Option ℕ
unfolding find_char
find_from c s pos = Option.map (◌+◌ pos) (find_char c (drop pos s))

-- `s.rfind(c)`
unfoldable pub rfind_char : ℕ → Str → Option ℕ
rfind_char c [] = none
rfind_char c (x ∷ s) = elim (rfind_char c s) [
  | none ↦ if x == c then some 0 else none
  | some i ↦ some (suc i)
]

-- `s.find(t) != npos`
unfoldable pub has_sub : Str → Str → Bool
unfolding starts_with
has_sub [] t = starts_with [] t
has_sub (x ∷ s) t = starts_with (x ∷ s) t || has_sub s t

-- `s.substr(pos, count)`
abbrev pub substr : Str → ℕ → ℕ → Str
substr s pos count = take count (drop pos s)

-- `std::tolower` in the "C" locale, and `iequals`
unfoldable pub to_lower : ℕ → ℕ
to_lower c = if leb b'A' c && leb c b'Z' then c + 32 else c

unfoldable pub iequals : Str → Str → Bool
unfolding to_lower str_eq
iequals s t = str_eq (map to_lower s) (map to_lower t)
