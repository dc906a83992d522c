-- ===== src/Auth/Fields/Termination.antt =====
-- The iterator over the matches stops by itself.
use gate_control.Base.{
  ℕ, zero, suc, ◌≤◌, ◌<◌, Bool, List, [], ◌∷◌, Option, none, some, length, ◌==◌, ◌≡◌, subst, arith,
  Bool-cases, Option-cases, inl, inr,
}
use gate_control.Base.Text.{Str}
use gate_control.Auth.Fields.{
  Match, is_letter, is_space, is_word, is_line_end, span, prepend, nonempty, to_quote, quoted,
  match_value, skip_comma, finish, after_key, match_here, search_from, matches,
}

span-length-le : (p : ℕ → Bool) (s : Str) → length (span p s).1 ≤ length s
unfolding span
span-length-le p [] = omega arith
span-length-le p (c ∷ s) = ground (arith, span-length-le p s)

-- What is left is shorter than a bound.
abbrev Leaves : ℕ → Option (Str × Str) → Type 0
Leaves n none = Unit {0}
Leaves n (some (a, b)) = length b < n

Leaves-mono : (n m : ℕ) (o : Option (Str × Str)) → n ≤ m → Leaves n o → Leaves m o
Leaves-mono n m none le h = tt
Leaves-mono n m (some (a, b)) le h = omega arith

Leaves-prepend : (n m c : ℕ) (o : Option (Str × Str)) → n ≤ m → Leaves n o → Leaves m (prepend c o)
Leaves-prepend n m c none le h = tt
Leaves-prepend n m c (some (a, b)) le h = omega arith

to_quote-Leaves : (s : Str) → Leaves (length s) (to_quote s)
unfolding to_quote
to_quote-Leaves [] = tt
to_quote-Leaves (c ∷ s) = elim (Bool-cases (c == b'"')) [
  | inl hit ↦ rw hit (omega arith)
  | inr miss ↦ elim (Bool-cases (is_line_end c)) [
    | inl end ↦ rw (miss, end) tt
    | inr more ↦
        rw (miss, more)
          (Leaves-prepend (length s) _ c (to_quote s) (omega arith) (to_quote-Leaves s))
  ]
]

quoted-Leaves : (s : Str) → Leaves (length s) (quoted s)
unfolding quoted
quoted-Leaves [] = tt
quoted-Leaves (c ∷ s) = elim (Bool-cases (is_line_end c)) [
  | inl end ↦ rw end tt
  | inr more ↦
      rw more (Leaves-prepend (length s) _ c (to_quote s) (omega arith) (to_quote-Leaves s))
]

nonempty-Leaves : (n : ℕ) (r : Str × Str) → length r.1 ≤ n → Leaves (suc n) (nonempty r)
nonempty-Leaves n ([], s) h = tt
nonempty-Leaves n (c ∷ a, s) h = omega arith

match_value-Leaves : (s : Str) → Leaves (suc (length s)) (match_value s)
unfolding match_value
match_value-Leaves [] = tt
match_value-Leaves (c ∷ s) = elim (Bool-cases (c == b'"')) [
  | inl hit ↦ rw hit (Leaves-prepend (length s) _ c (quoted s) (omega arith) (quoted-Leaves s))
  | inr miss ↦
      rw miss
        (nonempty-Leaves (suc (length s)) (span is_word (c ∷ s)) (span-length-le is_word (c ∷ s)))
]

abbrev Rests : ℕ → Option Match → Type 0
Rests n none = Unit {0}
Rests n (some m) = length m.rest < n

skip_comma-length-le : (s : Str) → length (skip_comma s) ≤ length s
unfolding skip_comma
skip_comma-length-le [] = omega arith
skip_comma-length-le (c ∷ s) = ground arith

finish-Rests : (n : ℕ) (key : Str) (o : Option (Str × Str)) → Leaves n o → Rests n (finish key o)
unfolding finish
finish-Rests n key none h = tt
finish-Rests n key (some (v, s)) h =
    omega (arith, skip_comma-length-le s, span-length-le is_space (skip_comma s))

after_key-Rests : (n : ℕ) (r : Str × Str) → length r.1 ≤ n → Rests n (after_key r)
unfolding after_key
after_key-Rests n ([], s) h = tt
after_key-Rests n (c ∷ key, []) h = tt
after_key-Rests n (c ∷ key, e ∷ s) h = elim (Bool-cases (e == b'=')) [
  | inl hit ↦ rw hit (
      finish-Rests n (c ∷ key) (match_value s)
        (Leaves-mono _ n (match_value s) h (match_value-Leaves s)))
  | inr miss ↦ rw miss tt
]

match_here-Rests : (s : Str) → Rests (length s) (match_here s)
unfolding match_here
match_here-Rests s =
    after_key-Rests (length s) (span is_letter (span is_space s).1)
      (omega (arith, span-length-le is_space s, span-length-le is_letter (span is_space s).1))

Rests-mono : (n m : ℕ) (o : Option Match) → n ≤ m → Rests n o → Rests m o
Rests-mono n m none le h = tt
Rests-mono n m (some x) le h = omega arith

search_from-Rests : (s : Str) → Rests (length s) (search_from s)
unfolding search_from
search_from-Rests [] = tt
search_from-Rests (c ∷ s) = elim (Option-cases (match_here (c ∷ s))) [
  | inl missing ↦
      rw (missing, search_from)
        (Rests-mono (length s) _ (search_from s) (omega arith) (search_from-Rests s))
  | inr (m, found) ↦
      rw (found, search_from) (subst (Rests (length (c ∷ s))) found (match_here-Rests (c ∷ s)))
]

-- The matches, one after another, until a search fails.
pub data Iterates : Str → List Match → Type 0 where
  end : {s : Str} → search_from s ≡ none → Iterates s []
  next :
      {s : Str} {ms : List Match} (m : Match)
      → search_from s ≡ some m
      → Iterates m.rest ms
      → Iterates s (m ∷ ms)

-- The iterator lists the matches one after another until a search fails, with fuel above the length
-- of the text: no match is left out, and it stops.
matches-Iterates : (fuel : ℕ) (s : Str) → length s < fuel → Iterates s (matches fuel s)
unfolding matches
matches-Iterates zero s h = absurd (omega arith)
matches-Iterates (suc fuel) s h = elim (Option-cases (search_from s)) [
  | inl missing ↦ rw (missing, matches) (end missing)
  | inr (m, found) ↦
      let shorter : length m.rest < length s =
        subst (Rests (length s)) found (search_from-Rests s) in
      rw (found, matches) (next m found (matches-Iterates fuel m.rest (omega arith)))
]
