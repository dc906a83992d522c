-- ===== src/Base/Outcome.antt =====
-- How a C++ call ends: with a value, with an exception, or with no defined behaviour (a missing
-- `return`, an index out of range).
use mathlib.Core.Path.{◌≡◌, refl, subst}
use mathlib.Core.Logic.{◌⊎◌, inl, inr}
use mathlib.Core.Option.{Option, none, some}

pub data Outcome {ℓ} (A : Type ℓ) : Type ℓ where
  ok : A → Outcome A
  raised : Outcome A
  undefined : Outcome A

infixl 5 ◌>>=◌ ◌>>◌
abbrev pub ◌>>=◌ {ℓ κ} : {A : Type ℓ} {B : Type κ} → Outcome A → (A → Outcome B) → Outcome B
ok a >>= f = f a
raised >>= f = raised
undefined >>= f = undefined

abbrev pub ◌>>◌ {ℓ} : {B : Type ℓ} → Outcome (Unit {0}) → Outcome B → Outcome B
m >> k = m >>= λ _. k

-- `optional::value`, `map::at`: the value, or an exception.
abbrev pub or_raise {ℓ} : {A : Type ℓ} → Option A → Outcome A
or_raise none = raised
or_raise (some a) = ok a

pub Outcome-cases {ℓ} :
    {A : Type ℓ} (o : Outcome A) → ((a : A) × (o ≡ ok a)) ⊎ ((o ≡ raised) ⊎ (o ≡ undefined))
Outcome-cases (ok a) = inl (a, refl)
Outcome-cases raised = inr (inl refl)
Outcome-cases undefined = inr (inr refl)

-- What holds of the value that is known holds of the one it is equal to.
pub ok-elim {ℓ κ} : {A : Type ℓ} (P : A → Type κ) {a b : A} → ok a ≡ ok b → P a → P b
ok-elim P {a} {b} h p = let e : a ≡ b = cc in subst P e p

-- A chain that ends with a value has a value at each of its links.
pub bind-ok {ℓ κ} :
    {A : Type ℓ} {B : Type κ} (o : Outcome A) (f : A → Outcome B) {b : B}
    → (o >>= f) ≡ ok b
    → (a : A) × (o ≡ ok a) × (f a ≡ ok b)
bind-ok (ok a) f h = (a, refl, h)
bind-ok raised f h = absurd (cc h)
bind-ok undefined f h = absurd (cc h)
