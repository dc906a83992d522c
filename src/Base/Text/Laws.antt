-- ===== src/Base/Text/Laws.antt =====
-- Equality, prefixes and searches of byte strings.
use Prim.Native.Nat.{ℕ, ◌+◌, ◌≤◌}
use mathlib.Core.Path.{◌≡◌, refl, ap}
use mathlib.Core.Logic.{◌≢◌, ◌↔◌}
use mathlib.Core.Bool.{true}
use mathlib.Core.Option
use mathlib.Core.Option.{Option, none, some}
use mathlib.Core.List.{[], ◌∷◌, ◌++◌}
use native.Mathlib.Omega.{arith}
use gate_control.Base.Lists.{length, drop, All, drop-length, take-length}
use gate_control.Base.Text.{Str, substr, str_eq, starts_with, find_char, find_from}

-- The byte `c` does not occur.
abbrev pub Lacks : ℕ → Str → Type 0
Lacks c = All (λ x. x ≢ c)

pub str_eq_refl : (s : Str) → str_eq s s ≡ true
unfolding str_eq
str_eq_refl [] = refl
str_eq_refl (x ∷ s) = ground (arith, str_eq_refl s)

pub str_eq→eq : (s t : Str) → str_eq s t ≡ true → s ≡ t
unfolding str_eq
str_eq→eq [] [] h = refl
str_eq→eq [] (y ∷ t) h = cc
str_eq→eq (x ∷ s) [] h = cc
str_eq→eq (x ∷ s) (y ∷ t) h = ground (arith, str_eq→eq s t)

pub str_eq_iff : (s t : Str) → (str_eq s t ≡ true) ↔ (s ≡ t)
str_eq_iff s t = (str_eq→eq s t, λ e. rw e (str_eq_refl t))

pub str_eq_sym : (s t : Str) → str_eq s t ≡ str_eq t s
unfolding str_eq
str_eq_sym [] [] = refl
str_eq_sym [] (y ∷ t) = refl
str_eq_sym (x ∷ s) [] = refl
str_eq_sym (x ∷ s) (y ∷ t) = ground (arith, str_eq_sym s t)

pub starts_with-append : (p s : Str) → starts_with (p ++ s) p ≡ true
unfolding starts_with
starts_with-append [] s = refl
starts_with-append (x ∷ p) s = ground (arith, starts_with-append p s)

pub starts_with→append : (s p : Str) → starts_with s p ≡ true → s ≡ p ++ drop (length p) s
unfolding starts_with
starts_with→append s [] h = refl
starts_with→append [] (y ∷ p) h = cc
starts_with→append (x ∷ s) (y ∷ p) h = ground (arith, starts_with→append s p)

pub starts_with-length : (s p : Str) → starts_with s p ≡ true → length p ≤ length s
unfolding starts_with
starts_with-length s [] h = omega arith
starts_with-length [] (y ∷ p) h = cc
starts_with-length (x ∷ s) (y ∷ p) h = ground (arith, starts_with-length s p)

pub find_char-append : (c : ℕ) (s t : Str) → Lacks c s → find_char c (s ++ c ∷ t) ≡ some (length s)
unfolding find_char
find_char-append c [] t h = ground arith
find_char-append c (x ∷ s) t h = ground (arith, find_char-append c s t h.1)

pub find_char-none : (c : ℕ) (s : Str) → Lacks c s → find_char c s ≡ none
unfolding find_char
find_char-none c [] h = refl
find_char-none c (x ∷ s) h = ground (arith, find_char-none c s h.1)

-- What a search from a position finds, when the text there is known.
pub find_from-append :
    (c : ℕ) (p s t : Str)
    → Lacks c s
    → find_from c (p ++ (s ++ c ∷ t)) (length p) ≡ some (length p + length s)
unfolding find_from
find_from-append c p s t h =
    rw (drop-length p (s ++ c ∷ t)) (ap (Option.map (◌+◌ (length p))) (find_char-append c s t h))

-- Searches and cuts at a position, where the text there is known.
module _ (p s t : Str) (l : Str) (n : ℕ) (at : n ≡ length p) where
  pub find_from-at :
      (c : ℕ) → l ≡ p ++ (s ++ c ∷ t) → Lacks c s → find_from c l n ≡ some (n + length s)
  find_from-at c e h = rw (e, at) (find_from-append c p s t h)

  pub substr-at : (k : ℕ) → k ≡ length s → l ≡ p ++ (s ++ t) → substr l n k ≡ s
  substr-at k len e = rw (e, at, len, drop-length p (s ++ t)) (take-length s t)

  pub drop-at : l ≡ p ++ t → drop n l ≡ t
  drop-at e = rw (e, at) (drop-length p t)
