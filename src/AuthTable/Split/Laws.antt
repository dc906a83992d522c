-- ===== src/AuthTable/Split/Laws.antt =====
-- `split_str` and `join_vector` undo one another.
use gate_control.Base.{
  ℕ, zero, suc, ◌+◌, ◌-◌, ◌≤◌, ◌<◌, List, [], ◌∷◌, ◌++◌, none, some, length, take, drop,
  length-drop, drop-drop, ◌==◌, ==_iff, if◌then◌else◌, ◌≡◌, ◌≢◌, refl, sym, ap, ap₂, ◌∙◌, All,
  arith, Bool-cases, Option-cases, inl, inr,
}
use gate_control.Base.Text.{Str, find_char, find_from}
use gate_control.Base.Text.Laws.{Lacks}
use gate_control.AuthTable.Split.{split_from, split_str, join_vector}

-- The fields between delimiters, by recursion on the text; there is always one.
abbrev cons_head : ℕ → List Str → List Str
cons_head c [] = (c ∷ []) ∷ []
cons_head c (f ∷ fs) = (c ∷ f) ∷ fs

pub fields : ℕ → Str → List Str
fields d [] = [] ∷ []
fields d (c ∷ s) = if c == d then [] ∷ fields d s else cons_head c (fields d s)

fields-find_char :
    (d : ℕ) (s : Str)
    → fields d s
      ≡ elim (find_char d s) [ none ↦ s ∷ [] | some i ↦ take i s ∷ fields d (drop (suc i) s) ]
unfolding fields find_char
fields-find_char d [] = refl
fields-find_char d (c ∷ s) = elim (Bool-cases (c == d)) [
  | inl hit ↦ rw hit
  | inr miss ↦ elim (Option-cases (find_char d s)) [
    | inl lacking ↦ rw (miss, fields-find_char d s, lacking)
    | inr (i, found) ↦ rw (miss, fields-find_char d s, found)
  ]
]

find_char-lt : (d : ℕ) (s : Str) (i : ℕ) → find_char d s ≡ some i → i < length s
unfolding find_char
find_char-lt d [] i h = cc
find_char-lt d (c ∷ s) zero h = omega arith
find_char-lt d (c ∷ s) (suc i) h = ground (arith, find_char-lt d s i, Option-cases (find_char d s))

-- One round of the loop.
split_from-none :
    (fuel d : ℕ) (input : Str) (previous : ℕ)
    → find_char d (drop previous input) ≡ none
    → split_from (suc fuel) d input previous ≡ drop previous input ∷ []
unfolding split_from find_from
split_from-none fuel d input previous h = rw (h, split_from)

split_from-some :
    (fuel d : ℕ) (input : Str) (previous i : ℕ)
    → find_char d (drop previous input) ≡ some i
    → split_from (suc fuel) d input previous
      ≡ take i (drop previous input) ∷ split_from fuel d input (previous + i + 1)
unfolding split_from find_from
split_from-some fuel d input previous i h =
    let e : previous + i - previous ≡ i = omega arith in rw (h, split_from, e)

fields-none : (d : ℕ) (s : Str) → find_char d s ≡ none → fields d s ≡ s ∷ []
fields-none d s h = fields-find_char d s ∙ rw h

fields-some :
    (d : ℕ) (s : Str) (i : ℕ)
    → find_char d s ≡ some i
    → fields d s ≡ take i s ∷ fields d (drop (suc i) s)
fields-some d s i h = fields-find_char d s ∙ rw h

-- The loop, from any position and with enough fuel.
split_from-fields :
    (fuel d : ℕ) (input : Str) (previous : ℕ)
    → previous ≤ length input
    → length input - previous < fuel
    → split_from fuel d input previous ≡ fields d (drop previous input)
split_from-fields zero d input previous h k = absurd (omega arith)
split_from-fields (suc fuel) d input previous h k =
    elim (Option-cases (find_char d (drop previous input))) [
      | inl lacking ↦ split_from-none fuel d input previous lacking ∙ sym (fields-none d _ lacking)
      | inr (i, found) ↦
          let lt = find_char-lt d (drop previous input) i found in
          let rest =
            split_from-fields fuel d input (previous + i + 1)
              (omega (arith, length-drop previous input))
              (omega (arith, length-drop previous input)) in
          let at : drop (suc i) (drop previous input) ≡ drop (previous + i + 1) input =
            drop-drop (suc i) previous input
            ∙ ap (λ k. drop k input) {x = previous + suc i} (omega arith) in
          split_from-some fuel d input previous i found
          ∙ ap (◌∷◌ (take i (drop previous input))) (rest ∙ ap (fields d) (sym at))
          ∙ sym (fields-some d _ i found)
    ]

-- Splitting is by the delimiters alone, and leaves nothing of an empty text.
split_str-fields : (d c : ℕ) (s : Str) → split_str d (c ∷ s) ≡ fields d (c ∷ s)
unfolding split_str
split_str-fields d c s =
    split_from-fields (suc (length (c ∷ s))) d (c ∷ s) 0 (omega arith) (omega arith)

fields-cons : (d : ℕ) (s : Str) → (f : Str) × (fs : List Str) × (fields d s ≡ f ∷ fs)
unfolding fields
fields-cons d [] = ([], [], refl)
fields-cons d (c ∷ s) =
    let (f, fs, e) = fields-cons d s in
    elim (Bool-cases (c == d)) [
      | inl hit ↦ ([], fields d s, rw hit)
      | inr miss ↦ (c ∷ f, fs, rw (miss, e))
    ]

join_vector-cons_head :
    (d c : ℕ) (f : Str) (fs : List Str) → join_vector d ((c ∷ f) ∷ fs) ≡ c ∷ join_vector d (f ∷ fs)
unfolding join_vector
join_vector-cons_head d c f [] = refl
join_vector-cons_head d c f (g ∷ fs) = refl

join_vector-cons_nil :
    (d : ℕ) (f : Str) (fs : List Str) → join_vector d ([] ∷ f ∷ fs) ≡ d ∷ join_vector d (f ∷ fs)
unfolding join_vector
join_vector-cons_nil d f fs = refl

join_vector-fields : (d : ℕ) (s : Str) → join_vector d (fields d s) ≡ s
unfolding fields
join_vector-fields d [] = unfold join_vector in refl
join_vector-fields d (c ∷ s) =
    let (f, fs, e) = fields-cons d s in
    let back : join_vector d (f ∷ fs) ≡ s = ap (join_vector d) (sym e) ∙ join_vector-fields d s in
    elim (Bool-cases (c == d)) [
      | inl hit ↦
          rw (hit, e) (join_vector-cons_nil d f fs ∙ ap₂ ◌∷◌ (sym ((==_iff c d).0 hit)) back)
      | inr miss ↦ rw (miss, e) (join_vector-cons_head d c f fs ∙ ap (◌∷◌ c) back)
    ]

-- Joining the fields gives the text back, whatever it holds.
pub join_vector-split_str : (d : ℕ) (s : Str) → join_vector d (split_str d s) ≡ s
join_vector-split_str d [] = unfold split_str join_vector in refl
join_vector-split_str d (c ∷ s) =
    ap (join_vector d) (split_str-fields d c s) ∙ join_vector-fields d (c ∷ s)

fields-append : (d : ℕ) (x s : Str) → Lacks d x → fields d (x ++ d ∷ s) ≡ x ∷ fields d s
unfolding fields
fields-append d [] s h = ground arith
fields-append d (c ∷ x) s h = ground (arith, fields-append d x s h.1)

fields-Lacks : (d : ℕ) (x : Str) → Lacks d x → fields d x ≡ x ∷ []
unfolding fields
fields-Lacks d [] h = refl
fields-Lacks d (c ∷ x) h = ground (arith, fields-Lacks d x h.1)

fields-join_vector :
    (d : ℕ) (x : Str) (v : List Str)
    → All (Lacks d) (x ∷ v)
    → fields d (join_vector d (x ∷ v)) ≡ x ∷ v
unfolding join_vector
fields-join_vector d x [] h = fields-Lacks d x h.0
fields-join_vector d x (y ∷ v) h =
    fields-append d x (join_vector d (y ∷ v)) h.0 ∙ ap (◌∷◌ x) (fields-join_vector d y v h.1)

join_vector-ne-nil :
    (d : ℕ) (x : Str) (v : List Str) → (x ∷ v) ≢ ([] ∷ []) → join_vector d (x ∷ v) ≢ []
unfolding join_vector
join_vector-ne-nil d [] [] ne e = ne refl
join_vector-ne-nil d [] (y ∷ v) ne e = cc
join_vector-ne-nil d (c ∷ x) [] ne e = cc
join_vector-ne-nil d (c ∷ x) (y ∷ v) ne e = cc

-- Splitting a joined list gives it back, where no item holds the delimiter; the list of one empty
-- item is the exception.
pub split_str-join_vector :
    (d : ℕ) (v : List Str) → All (Lacks d) v → v ≢ ([] ∷ []) → split_str d (join_vector d v) ≡ v
split_str-join_vector d [] h ne = unfold split_str join_vector in refl
split_str-join_vector d (x ∷ v) h ne =
    split_str_of_ne (join_vector d (x ∷ v)) (join_vector-ne-nil d x v ne)
    ∙ fields-join_vector d x v h
  where
    split_str_of_ne : (s : Str) → s ≢ [] → split_str d s ≡ fields d s
    split_str_of_ne [] k = absurd (k refl)
    split_str_of_ne (c ∷ s) k = split_str-fields d c s
