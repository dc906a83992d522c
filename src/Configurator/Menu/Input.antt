-- ===== src/Configurator/Menu/Input.antt =====
-- src/configurator.cpp: what is read from `std::cin`, and `menu`. The input is a list of lines, the
-- first without what was read of it; each line has its newline. The list is the whole input, and
-- behind it is its end, where every read fails. The code never clears the flags of the stream, so
-- a loop that has met a read that fails, at the end or before it, repeats that read for ever: it
-- has no result.
use gate_control.Base.{
  ℕ, zero, suc, ◌+◌, ◌-◌, ◌*◌, ◌%◌, ◌^◌, Bool, true, false, List, [], ◌∷◌, Option, none, some,
  length, drop, ltb, ◌==◌, if◌then◌else◌,
}
use gate_control.Base.Chain.{◌>>=◌}
use gate_control.Base.Text.{Str}
use gate_control.AuthTable.Stoi.{is_space, is_digit, skip_spaces}

-- The digits that a text begins with, and what follows them.
unfoldable pub digits : ℕ → Str → ℕ × Str
digits acc [] = (acc, [])
digits acc (c ∷ s) =
    let more = digits (acc * 10 + (c - b'0')) s in if is_digit c then more else (acc, c ∷ s)

-- A value of 32 bits, negated modulo 2 ^ 32 behind a minus sign.
abbrev pub in_unsigned : Bool → ℕ × Str → Option (ℕ × Str)
in_unsigned negative (n, rest) =
    if ltb n (2 ^ 32) then some (if negative then (2 ^ 32 - n) % 2 ^ 32 else n, rest) else none

abbrev pub unsigned_of : Bool → Str → Option (ℕ × Str)
unsigned_of negative [] = none
unsigned_of negative (c ∷ s) = if is_digit c then in_unsigned negative (digits 0 (c ∷ s)) else none

unfoldable pub number_at : Str → Option (ℕ × Str)
unfolding digits
number_at [] = none
number_at (c ∷ s) =
    if c == b'-'
    then unsigned_of true s
    else if c == b'+'
    then unsigned_of false s
    else unsigned_of false (c ∷ s)

abbrev pub with_lines : List Str → Option (ℕ × Str) → Option (ℕ × List Str)
with_lines lines none = none
with_lines lines (some (n, rest)) = some (n, rest ∷ lines)

abbrev pub read_at : Str → List Str → Option (ℕ × List Str) → Option (ℕ × List Str)
read_at [] lines later = later
read_at (c ∷ s) lines later = with_lines lines (number_at (c ∷ s))

-- `std::cin >> choice`; `none` where it fails, after which every read fails.
unfoldable pub read_unsigned : List Str → Option (ℕ × List Str)
unfolding skip_spaces number_at
read_unsigned [] = none
read_unsigned (line ∷ lines) =
    let later = read_unsigned lines in read_at (skip_spaces line) lines later

-- `std::cin.ignore` up to the end of the line
abbrev pub fix_cin : List Str → List Str
fix_cin lines = drop 1 lines

-- The loop of `menu` behind an invalid choice. Each pass reads a line. `none` is the loop that does
-- not end: a read has failed, of a text that is no number or at the end of the input, and so does
-- every later one.
unfoldable pub choose_again : ℕ → ℕ → List Str → Option (ℕ × List Str)
unfolding read_unsigned
choose_again zero count lines = none
choose_again (suc fuel) count lines =
    let again = choose_again fuel count in
    do
      choice ← read_unsigned lines
      (if ltb choice.0 count then some (choice.0, fix_cin choice.1) else again (fix_cin choice.1))

-- The choice of one of some entries. Only behind an invalid one the rest of the line is dropped.
unfoldable pub menu : ℕ → List Str → Option (ℕ × List Str)
unfolding choose_again
menu count lines = do
  choice ← read_unsigned lines
  (if ltb choice.0 count then some choice else choose_again (suc (length choice.1)) count choice.1)

-- Up to the next space
unfoldable pub word : Str → Str × Str
word [] = ([], [])
word (c ∷ s) = let more = word s in if is_space c then ([], c ∷ s) else (c ∷ more.0, more.1)

abbrev pub with_char : ℕ → Option (Str × List Str) → Option (Str × List Str)
with_char c none = none
with_char c (some (w, rest)) = some (c ∷ w, rest)

-- Up to the closing quotation mark, which may stand on a later line. The Boolean says whether a
-- backslash stands before.
unfoldable pub in_quotes : Bool → Str → List Str → Option (Str × List Str) → Option (Str × List Str)
in_quotes escaped [] lines later = with_char b'\n' later
in_quotes true (c ∷ s) lines later = with_char c (in_quotes false s lines later)
in_quotes false (c ∷ s) lines later =
    let more = in_quotes false s lines later in
    let behind = in_quotes true s lines later in
    if c == b'"' then some ([], s ∷ lines) else if c == b'\\' then behind else with_char c more

unfoldable pub quoted : Str → List Str → Option (Str × List Str)
unfolding in_quotes
quoted s [] = in_quotes false s [] none
quoted s (line ∷ lines) = let later = quoted line lines in in_quotes false s (line ∷ lines) later

abbrev pub word_at : Str → List Str → Option (Str × List Str) → Option (Str × List Str)
word_at [] lines later = later
word_at (c ∷ s) lines later =
    let w = word (c ∷ s) in if c == b'"' then quoted s lines else some (w.0, w.1 ∷ lines)

-- `std::cin >> path`: a word, or a text in quotation marks.
unfoldable pub read_path : List Str → Option (Str × List Str)
unfolding skip_spaces word quoted
read_path [] = none
read_path (line ∷ lines) = let later = read_path lines in word_at (skip_spaces line) lines later
