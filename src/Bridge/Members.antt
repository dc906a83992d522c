-- ===== src/Bridge/Members.antt =====
-- Lists of pointers: what stands in them, and how often.
use gate_control.Base.{
  true, ℕ, ◌<◌, ◌≤◌, false, List, [], ◌∷◌, ◌++◌, ◌≡◌, inl, inr, refl, All, arith, Bool-cases,
}
use gate_control.Socket.{Session}
use gate_control.Bridge.{is_live, remove_dead}
use gate_control.Bridge.Delivery.{is_member, Distinct}

abbrev pub Below : ℕ → List ℕ → Type 0
Below n is = All (λ i. i < n) is

pub Below-le : (m n : ℕ) (is : List ℕ) → m ≤ n → Below m is → Below n is
Below-le m n [] le h = tt
Below-le m n (i ∷ is) le (h, hs) = (omega (arith, h, le), Below-le m n is le hs)

pub remove_dead-Below :
    (n : ℕ) (store : List Session) (is : List ℕ) → Below n is → Below n (remove_dead store is)
unfolding remove_dead
remove_dead-Below n store [] h = tt
remove_dead-Below n store (i ∷ is) (h, hs) = elim (Bool-cases (is_live store i)) [
  | inl live ↦ rw live (h, remove_dead-Below n store is hs)
  | inr dead ↦ rw dead (remove_dead-Below n store is hs)
]

Below-is_member : (n : ℕ) (is : List ℕ) → Below n is → is_member n is ≡ false
Below-is_member n [] h = refl
Below-is_member n (i ∷ is) (h, hs) = ground (arith, Below-is_member n is hs)

pub append-Distinct : (n : ℕ) (is : List ℕ) → Below n is → Distinct is → Distinct (is ++ n ∷ [])
append-Distinct n [] h d = (refl, tt)
append-Distinct n (i ∷ is) (h, hs) (new, d) = (is_member-append is new, append-Distinct n is hs d)
  where
    is_member-append : (js : List ℕ) → is_member i js ≡ false → is_member i (js ++ n ∷ []) ≡ false
    is_member-append [] e = ground arith
    is_member-append (j ∷ js) e = ground (arith, is_member-append js)

pub is_member-first :
    (i n : ℕ) (is : List ℕ) → is_member i is ≡ true → is_member i (is ++ n ∷ []) ≡ true
is_member-first i n [] h = absurd (cc h)
is_member-first i n (j ∷ is) h = ground (arith, is_member-first i n is)

pub is_member-last : (i n : ℕ) (is : List ℕ) → i ≡ n → is_member i (is ++ n ∷ []) ≡ true
is_member-last i n [] e = ground arith
is_member-last i n (j ∷ is) e = ground (arith, is_member-last i n is e)
