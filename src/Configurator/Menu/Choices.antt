-- ===== src/Configurator/Menu/Choices.antt =====
-- What a menu makes of its input: a choice, or a loop without end.
use gate_control.Base.{ℕ, ◌≤◌, true, false, List, Option, none, some, length, ltb, ◌≡◌, ◌⊎◌}
use gate_control.Base.Text.{Str}
use gate_control.Configurator.Menu.Input.{read_unsigned, fix_cin}

-- Not more lines are left behind a read.
abbrev NotLonger : List Str → Option (ℕ × List Str) → Type 0
NotLonger lines none = Unit
NotLonger lines (some (n, rest)) = length rest ≤ length lines

-- Behind some invalid choices a read fails.
pub data Fails (count : ℕ) : List Str → Type 0 where
  unreadable : {lines : List Str} → read_unsigned lines ≡ none → Fails count lines
  invalid :
      {lines : List Str} (n : ℕ) (rest : List Str)
      → read_unsigned lines ≡ some (n, rest)
      → ltb n count ≡ false
      → Fails count (fix_cin rest)
      → Fails count lines

-- The choice of a result is one of the entries.
abbrev pub GivesEntry : ℕ → Option (ℕ × List Str) → Type 0
GivesEntry count o = (n : ℕ) × (rest : List Str) × (o ≡ some (n, rest)) × (ltb n count ≡ true)

-- The first read of a menu fails, or gives an invalid choice, and one of the loop behind it fails.
abbrev pub NeverEnds : ℕ → List Str → Type 0
NeverEnds count lines =
    (read_unsigned lines ≡ none)
    ⊎ ((n : ℕ) × (rest : List Str) × (read_unsigned lines ≡ some (n, rest))
        × (ltb n count ≡ false)
        × Fails count rest)
