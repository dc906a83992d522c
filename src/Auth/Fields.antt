-- ===== src/Auth/Fields.antt =====
-- src/auth.hpp: `key_value_regex`, and the matches that `std::sregex_iterator` finds with it.
--
--   \s*([a-zA-Z]+)=(".+?"|[a-zA-Z0-9_\-+=]+),?\s*
--
-- The backtracking search is deterministic here. A shorter run of spaces or letters is followed by
-- a space or a letter, where a letter or `=` is wanted; a value that begins with a quote is no
-- word; and the end of the expression matches everywhere.
pub mod Termination
pub mod Written
pub mod RoundTrip
use gate_control.Base.{
  ℕ, zero, suc, ◌-◌, Bool, true, false, ◌&&◌, ◌||◌, List, [], ◌∷◌, Option, none, some, length, take,
  leb, ◌==◌, if◌then◌else◌,
}
use gate_control.Base.Text.{Str}

abbrev pub is_space : ℕ → Bool
is_space c = c == b' ' || leb 9 c && leb c 13

abbrev pub is_letter : ℕ → Bool
is_letter c = leb b'a' c && leb c b'z' || leb b'A' c && leb c b'Z'

abbrev pub is_word : ℕ → Bool
is_word c =
    is_letter c || leb b'0' c && leb c b'9' || c == b'_' || c == b'-' || c == b'+' || c == b'='

-- What `.` does not match.
abbrev pub is_line_end : ℕ → Bool
is_line_end c = c == b'\n' || c == b'\r'

-- A greedy run of one class: the bytes taken and the rest.
unfoldable pub span : (ℕ → Bool) → Str → Str × Str
span p [] = ([], [])
span p (c ∷ s) = if p c then (c ∷ (span p s).0, (span p s).1) else ([], c ∷ s)

-- A match: its two groups, and where the next search begins.
pub record Match : Type 0 where
  pub key : Str
  pub value : Str
  pub rest : Str

abbrev prepend : ℕ → Option (Str × Str) → Option (Str × Str)
prepend c none = none
prepend c (some (a, b)) = some (c ∷ a, b)

-- Up to and with the next quote: what is left of `.+?"` after its first byte.
unfoldable pub to_quote : Str → Option (Str × Str)
to_quote [] = none
to_quote (c ∷ s) =
    if c == b'"' then some (c ∷ [], s) else if is_line_end c then none else prepend c (to_quote s)

unfoldable pub quoted : Str → Option (Str × Str)
quoted [] = none
quoted (c ∷ s) = if is_line_end c then none else prepend c (to_quote s)

abbrev nonempty : Str × Str → Option (Str × Str)
nonempty ([], s) = none
nonempty (c ∷ a, s) = some (c ∷ a, s)

unfoldable pub match_value : Str → Option (Str × Str)
match_value [] = none
match_value (c ∷ s) = if c == b'"' then prepend c (quoted s) else nonempty (span is_word (c ∷ s))

unfoldable pub skip_comma : Str → Str
skip_comma [] = []
skip_comma (c ∷ s) = if c == b',' then s else c ∷ s

unfoldable pub finish : Str → Option (Str × Str) → Option Match
finish key none = none
finish key (some (value, s)) =
    some (record { key = key; value = value; rest = (span is_space (skip_comma s)).1 })

unfoldable pub after_key : Str × Str → Option Match
after_key ([], s) = none
after_key (c ∷ key, []) = none
after_key (c ∷ key, e ∷ s) = if e == b'=' then finish (c ∷ key) (match_value s) else none

-- A match that begins at the first byte.
unfoldable pub match_here : Str → Option Match
match_here s = after_key (span is_letter (span is_space s).1)

-- The leftmost match.
unfoldable pub search_from : Str → Option Match
search_from [] = none
search_from (c ∷ s) = elim (match_here (c ∷ s)) [ some m ↦ some m | none ↦ search_from s ]

-- The iterator. Each match takes bytes away, so the length bounds their number.
unfoldable pub matches : ℕ → Str → List Match
matches zero s = []
matches (suc fuel) s = elim (search_from s) [ none ↦ [] | some m ↦ m ∷ matches fuel m.rest ]

abbrev pub last_is_quote : Str → Bool
last_is_quote [] = false
last_is_quote (c ∷ []) = c == b'"'
last_is_quote (c ∷ d ∷ s) = last_is_quote (d ∷ s)

-- The value without the quotes round it: `value.substr(1, value.size() - 2)`. A value is never
-- empty, and one that begins with a quote has three bytes or more.
unfoldable pub unquote : Str → Str
unquote [] = []
unquote (c ∷ s) = if c == b'"' && last_is_quote (c ∷ s) then take (length (c ∷ s) - 2) s else c ∷ s
