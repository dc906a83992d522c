-- ===== src/Configurator/Menu/Bounds.antt =====
-- What is left of the input behind each read.
use gate_control.Base.{
  ℕ, zero, suc, ◌+◌, ◌-◌, ◌*◌, ◌^◌, ◌≤◌, ◌<◌, Bool, true, false, List, [], ◌∷◌, Option, none, some,
  length, ltb, ◌==◌, inl, inr, arith, Bool-cases, Option-cases, subst,
}
use gate_control.Base.Text.{Str}
use gate_control.AuthTable.Stoi.{is_space, is_digit, skip_spaces}
use gate_control.Configurator.Menu.Input.{
  digits, in_unsigned, unsigned_of, number_at, with_lines, read_at, read_unsigned, fix_cin,
  choose_again, menu,
}
use gate_control.Configurator.Menu.{weight}

pub skip_spaces-le : (s : Str) → length (skip_spaces s) ≤ length s
unfolding skip_spaces
skip_spaces-le [] = omega arith
skip_spaces-le (c ∷ s) = elim (Bool-cases (is_space c)) [
  | inl t ↦ rw t (omega (arith, skip_spaces-le s))
  | inr f ↦ rw f (omega arith)
]

digits-le : (acc : ℕ) (s : Str) → length (digits acc s).1 ≤ length s
unfolding digits
digits-le acc [] = omega arith
digits-le acc (c ∷ s) = elim (Bool-cases (is_digit c)) [
  | inl t ↦ rw t (omega (arith, digits-le (acc * 10 + (c - b'0')) s))
  | inr f ↦ rw f (omega arith)
]

-- What is left behind a number is shorter.
abbrev Shorter : Str → Option (ℕ × Str) → Type 0
Shorter s none = Unit
Shorter s (some (n, rest)) = length rest < length s

in_unsigned-Shorter :
    (negative : Bool) (s : Str) (n : ℕ) (rest : Str)
    → length rest < length s
    → Shorter s (in_unsigned negative (n, rest))
in_unsigned-Shorter negative s n rest h = elim (Bool-cases (ltb n (2 ^ 32))) [
  | inl t ↦ rw t h
  | inr f ↦ rw f tt
]

unsigned_of-Shorter : (negative : Bool) (s : Str) → Shorter s (unsigned_of negative s)
unfolding digits
unsigned_of-Shorter negative [] = tt
unsigned_of-Shorter negative (c ∷ s) = elim (Bool-cases (is_digit c)) [
  | inl t ↦
      let le = digits-le (0 * 10 + (c - b'0')) s in
      rw t (in_unsigned-Shorter negative (c ∷ s) _ _ (omega arith))
  | inr f ↦ rw f tt
]

Shorter-suc : (c : ℕ) (s : Str) (o : Option (ℕ × Str)) → Shorter s o → Shorter (c ∷ s) o
Shorter-suc c s none h = tt
Shorter-suc c s (some (n, rest)) h = omega arith

number_at-Shorter : (s : Str) → Shorter s (number_at s)
unfolding number_at
number_at-Shorter [] = tt
number_at-Shorter (c ∷ s) = elim (Bool-cases (c == b'-')) [
  | inl t ↦ rw t (Shorter-suc c s (unsigned_of true s) (unsigned_of-Shorter true s))
  | inr f ↦ elim (Bool-cases (c == b'+')) [
    | inl t ↦ rw (f, t) (Shorter-suc c s (unsigned_of false s) (unsigned_of-Shorter false s))
    | inr f' ↦ rw (f, f') (unsigned_of-Shorter false (c ∷ s))
  ]
]

-- Less is left, or not more.
abbrev pub Less {ℓ} : {A : Type ℓ} → List Str → Option (A × List Str) → Type 0
Less lines none = Unit
Less lines (some (a, rest)) = weight rest < weight lines

abbrev pub NotMore {ℓ} : {A : Type ℓ} → List Str → Option (A × List Str) → Type 0
NotMore lines none = Unit
NotMore lines (some (a, rest)) = weight rest ≤ weight lines

with_lines-Less :
    (s line : Str) (lines : List Str) (o : Option (ℕ × Str))
    → length s ≤ length line
    → Shorter s o
    → Less (line ∷ lines) (with_lines lines o)
with_lines-Less s line lines none le h = tt
with_lines-Less s line lines (some (n, rest)) le h = omega arith

read_at-Less :
    (s line : Str) (lines : List Str) (o : Option (ℕ × List Str))
    → length s ≤ length line
    → Less lines o
    → Less (line ∷ lines) (read_at s lines o)
read_at-Less [] line lines none le h = tt
read_at-Less [] line lines (some (n, rest)) le h = omega arith
read_at-Less (c ∷ s) line lines o le h =
    with_lines-Less (c ∷ s) line lines (number_at (c ∷ s)) le (number_at-Shorter (c ∷ s))

pub read_unsigned-Less : (lines : List Str) → Less lines (read_unsigned lines)
unfolding read_unsigned
read_unsigned-Less [] = tt
read_unsigned-Less (line ∷ lines) =
    read_at-Less (skip_spaces line) line lines (read_unsigned lines) (skip_spaces-le line)
      (read_unsigned-Less lines)

pub drop-NotMore : (lines : List Str) → weight (fix_cin lines) ≤ weight lines
drop-NotMore [] = omega arith
drop-NotMore (line ∷ lines) = omega arith

Less-below {ℓ} :
    {A : Type ℓ} (lines lines' : List Str) (o : Option (A × List Str))
    → weight lines' ≤ weight lines
    → Less lines' o
    → Less lines o
Less-below lines lines' none le h = tt
Less-below lines lines' (some (a, rest)) le h = omega arith

choose_again-Less : (fuel count : ℕ) (lines : List Str) → Less lines (choose_again fuel count lines)
unfolding choose_again
choose_again-Less zero count lines = tt
choose_again-Less (suc fuel) count lines = elim (Option-cases (read_unsigned lines)) [
  | inl e ↦ rw e tt
  | inr ((n, rest), e) ↦
      let less : weight rest < weight lines = subst (Less lines) e (read_unsigned-Less lines) in
      let fewer = drop-NotMore rest in
      elim (Bool-cases (ltb n count)) [
        | inl t ↦ rw (e, t) (omega arith)
        | inr f ↦
            rw (e, f)
              (Less-below lines (fix_cin rest) (choose_again fuel count (fix_cin rest))
                (omega arith) (choose_again-Less fuel count (fix_cin rest)))
      ]
]

pub menu-Less : (count : ℕ) (lines : List Str) → Less lines (menu count lines)
unfolding menu
menu-Less count lines = elim (Option-cases (read_unsigned lines)) [
  | inl e ↦ rw e tt
  | inr ((n, rest), e) ↦
      let less : weight rest < weight lines = subst (Less lines) e (read_unsigned-Less lines) in
      elim (Bool-cases (ltb n count)) [
        | inl t ↦ rw (e, t) less
        | inr f ↦
            rw (e, f)
              (Less-below lines rest (choose_again (suc (length rest)) count rest) (omega arith)
                (choose_again-Less (suc (length rest)) count rest))
      ]
]
