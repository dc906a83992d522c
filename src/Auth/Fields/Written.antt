-- ===== src/Auth/Fields/Written.antt =====
-- Fields as the expression wants them, and what each part of it matches of them.
use gate_control.Base.{
  ℕ, Bool, true, false, List, [], ◌∷◌, ◌++◌, some, ◌==◌, ◌≡◌, refl, ap, All, arith,
}
use gate_control.Base.Text.{Str}
use gate_control.Base.Text.Laws.{Lacks}
use gate_control.Auth.Fields.{
  is_letter, is_space, is_word, is_line_end, span, to_quote, quoted, nonempty, match_value, finish,
  after_key, match_here,
}

-- A field and how its value is written.
pub data Field : Type 0 where
  quotes : Str → Str → Field
  word : Str → Str → Field

abbrev pub pair : Field → Str × Str
pair (quotes k v) = (k, v)
pair (word k v) = (k, v)

-- The field, and the text behind it.
abbrev pub field_text : Field → Str → Str
field_text (quotes k v) s = k ++ (b'=' ∷ b'"' ∷ (v ++ (b'"' ∷ s)))
field_text (word k v) s = k ++ (b'=' ∷ (v ++ s))

-- Separated by a comma and a space.
abbrev pub fields_text : List Field → Str
fields_text [] = []
fields_text (f ∷ []) = field_text f []
fields_text (f ∷ g ∷ fs) = field_text f (b',' ∷ b' ' ∷ fields_text (g ∷ fs))

abbrev pub Holds : (ℕ → Bool) → Str → Type 0
Holds p = All (λ c. p c ≡ true)

abbrev pub Nonempty : Str → Type 0
Nonempty [] = ⊥
Nonempty (c ∷ s) = Unit

-- The keys are letters. A value in quotes holds no quote and no line end, and any other is a word.
abbrev pub IsField : Field → Type 0
IsField (quotes k v) =
    Holds is_letter k × Nonempty k × Nonempty v × Lacks b'"' v × Lacks b'\n' v × Lacks b'\r' v
IsField (word k v) = Holds is_letter k × Nonempty k × Nonempty v × Holds is_word v

-- A run ends before the text.
abbrev pub Stops : (ℕ → Bool) → Str → Type 0
Stops p [] = Unit
Stops p (c ∷ s) = p c ≡ false

pub span-append : (p : ℕ → Bool) (a s : Str) → Holds p a → Stops p s → span p (a ++ s) ≡ (a, s)
unfolding span
span-append p [] [] h e = refl
span-append p [] (c ∷ s) h e = rw e
span-append p (c ∷ a) s h e = rw (h.0, span-append p a s h.1 e)

pub letter_not_space : (c : ℕ) → is_letter c ≡ true → is_space c ≡ false
letter_not_space c h = ground arith

pub word_not_quote : (c : ℕ) → is_word c ≡ true → (c == b'"') ≡ false
word_not_quote c h = ground arith

-- The key is passed, up to the equals sign.
pub match_here-key :
    (k s : Str)
    → Holds is_letter k
    → Nonempty k
    → match_here (k ++ (b'=' ∷ s)) ≡ finish k (match_value s)
unfolding match_here after_key
match_here-key [] s h ne = absurd ne
match_here-key (c ∷ k) s h ne =
    rw (span-append is_space [] (c ∷ k ++ (b'=' ∷ s)) tt (letter_not_space c h.0))
      (rw (span-append is_letter (c ∷ k) (b'=' ∷ s) h refl))

pub to_quote-append :
    (v s : Str)
    → Lacks b'"' v
    → Lacks b'\n' v
    → Lacks b'\r' v
    → to_quote (v ++ (b'"' ∷ s)) ≡ some (v ++ (b'"' ∷ []), s)
unfolding to_quote
to_quote-append [] s h n r = refl
to_quote-append (c ∷ v) s h n r =
    let a : (c == b'"') ≡ false = ground arith in
    let b : is_line_end c ≡ false = ground arith in rw (a, b, to_quote-append v s h.1 n.1 r.1)

pub match_value-quotes :
    (v s : Str)
    → Nonempty v
    → Lacks b'"' v
    → Lacks b'\n' v
    → Lacks b'\r' v
    → match_value (b'"' ∷ (v ++ (b'"' ∷ s))) ≡ some (b'"' ∷ (v ++ (b'"' ∷ [])), s)
unfolding match_value quoted
match_value-quotes [] s ne h n r = absurd ne
match_value-quotes (c ∷ v) s ne h n r =
    let b : is_line_end c ≡ false = ground arith in rw (b, to_quote-append v s h.1 n.1 r.1)

pub match_value-word :
    (v s : Str)
    → Nonempty v
    → Holds is_word v
    → Stops is_word s
    → match_value (v ++ s) ≡ some (v, s)
unfolding match_value
match_value-word [] s ne h e = absurd ne
match_value-word (c ∷ v) s ne h e =
    rw (word_not_quote c h.0, ap nonempty (span-append is_word (c ∷ v) s h e))
