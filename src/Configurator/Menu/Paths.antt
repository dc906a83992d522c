-- ===== src/Configurator/Menu/Paths.antt =====
-- What is left of the input behind a path.
use gate_control.Base.{
  ℕ, ◌≤◌, Bool, true, false, List, [], ◌∷◌, Option, none, some, length, ◌==◌, inl, inr, arith,
  Bool-cases,
}
use gate_control.Base.Text.{Str}
use gate_control.AuthTable.Stoi.{is_space, skip_spaces}
use gate_control.Configurator.Menu.Input.{word, with_char, in_quotes, quoted, word_at, read_path}
use gate_control.Configurator.Menu.{weight}
use gate_control.Configurator.Menu.Bounds.{NotMore, skip_spaces-le}

word-le : (s : Str) → length (word s).1 ≤ length s
unfolding word
word-le [] = omega arith
word-le (c ∷ s) = elim (Bool-cases (is_space c)) [
  | inl t ↦ rw t (omega arith)
  | inr f ↦ rw f (omega (arith, word-le s))
]

with_char-NotMore :
    (c : ℕ) (lines : List Str) (o : Option (Str × List Str))
    → NotMore lines o
    → NotMore lines (with_char c o)
with_char-NotMore c lines none h = tt
with_char-NotMore c lines (some (w, rest)) h = h

NotMore-below {ℓ} :
    {A : Type ℓ} (lines lines' : List Str) (o : Option (A × List Str))
    → weight lines' ≤ weight lines
    → NotMore lines' o
    → NotMore lines o
NotMore-below lines lines' none le h = tt
NotMore-below lines lines' (some (a, rest)) le h = omega arith

in_quotes-NotMore :
    (escaped : Bool) (s : Str) (lines : List Str) (later : Option (Str × List Str))
    → NotMore lines later
    → NotMore (s ∷ lines) (in_quotes escaped s lines later)
unfolding in_quotes
in_quotes-NotMore escaped [] lines later h =
    NotMore-below ([] ∷ lines) lines (with_char b'\n' later) (omega arith)
      (with_char-NotMore b'\n' lines later h)
in_quotes-NotMore true (c ∷ s) lines later h =
    NotMore-below ((c ∷ s) ∷ lines) (s ∷ lines) (with_char c (in_quotes false s lines later))
      (omega arith)
      (with_char-NotMore c (s ∷ lines) (in_quotes false s lines later)
        (in_quotes-NotMore false s lines later h))
in_quotes-NotMore false (c ∷ s) lines later h = elim (Bool-cases (c == b'"')) [
  | inl t ↦ rw t (omega arith)
  | inr f ↦ elim (Bool-cases (c == b'\\')) [
    | inl t ↦
        rw (f, t)
          (NotMore-below ((c ∷ s) ∷ lines) (s ∷ lines) (in_quotes true s lines later) (omega arith)
            (in_quotes-NotMore true s lines later h))
    | inr f' ↦
        rw (f, f')
          (NotMore-below ((c ∷ s) ∷ lines) (s ∷ lines) (with_char c (in_quotes false s lines later))
            (omega arith)
            (with_char-NotMore c (s ∷ lines) (in_quotes false s lines later)
              (in_quotes-NotMore false s lines later h)))
  ]
]

quoted-NotMore : (s : Str) (lines : List Str) → NotMore (s ∷ lines) (quoted s lines)
unfolding quoted
quoted-NotMore s [] = in_quotes-NotMore false s [] none tt
quoted-NotMore s (line ∷ lines) =
    in_quotes-NotMore false s (line ∷ lines) (quoted line lines) (quoted-NotMore line lines)

word_at-NotMore :
    (s line : Str) (lines : List Str) (o : Option (Str × List Str))
    → length s ≤ length line
    → NotMore lines o
    → NotMore (line ∷ lines) (word_at s lines o)
word_at-NotMore [] line lines o le h = NotMore-below (line ∷ lines) lines o (omega arith) h
word_at-NotMore (c ∷ s) line lines o le h =
    let short = word-le (c ∷ s) in
    elim (Bool-cases (c == b'"')) [
      | inl t ↦ rw t (
          NotMore-below (line ∷ lines) (s ∷ lines) (quoted s lines) (omega arith)
            (quoted-NotMore s lines))
      | inr f ↦ rw f (omega arith)
    ]

pub read_path-NotMore : (lines : List Str) → NotMore lines (read_path lines)
unfolding read_path
read_path-NotMore [] = tt
read_path-NotMore (line ∷ lines) =
    word_at-NotMore (skip_spaces line) line lines (read_path lines) (skip_spaces-le line)
      (read_path-NotMore lines)
