-- ===== src/AuthTable/Split.antt =====
-- src/auth_table.hpp: `split_str` and `join_vector`.
pub mod Laws
use gate_control.Base.{ℕ, zero, suc, ◌+◌, ◌-◌, List, [], ◌∷◌, ◌++◌, none, some, length, drop}
use gate_control.Base.Text.{Str, substr, find_from}

-- The `do` loop. A field that no delimiter ends goes on to the end: its count, `npos - previous`,
-- is past it. Each round moves `previous` on, so the length bounds the rounds.
unfoldable pub split_from : ℕ → ℕ → Str → ℕ → List Str
split_from zero d input previous = []
split_from (suc fuel) d input previous = elim (find_from d input previous) [
  | none ↦ drop previous input ∷ []
  | some i ↦ substr input previous (i - previous) ∷ split_from fuel d input (i + 1)
]

unfoldable pub split_str : ℕ → Str → List Str
split_str d [] = []
split_str d (c ∷ s) = split_from (suc (length (c ∷ s))) d (c ∷ s) 0

-- The delimiter follows every item but the last.
unfoldable pub join_vector : ℕ → List Str → Str
join_vector d [] = []
join_vector d (x ∷ []) = x
join_vector d (x ∷ y ∷ v) = x ++ (d ∷ join_vector d (y ∷ v))
