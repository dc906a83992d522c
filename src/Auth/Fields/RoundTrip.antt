-- ===== src/Auth/Fields/RoundTrip.antt =====
-- Fields that are written as the expression wants them are found again, in order.
use gate_control.Base.{
  ℕ, zero, suc, ◌+◌, ◌-◌, ◌<◌, true, List, [], ◌∷◌, ◌++◌, none, some, length, length-append,
  take-length, ◌≡◌, refl, sym, ap, ◌∙◌, map, All, arith,
}
use gate_control.Base.Text.{Str, codes}
use gate_control.Auth.Fields.{
  Match, is_space, is_word, span, skip_comma, finish, after_key, match_here, search_from, matches,
  last_is_quote, unquote,
}
use gate_control.Auth.Fields.Written.{
  Field, pair, field_text, fields_text, IsField, Stops, span-append, letter_not_space,
  word_not_quote, match_here-key, match_value-quotes, match_value-word, quotes, word,
}

-- The value as it is matched.
abbrev raw : Field → Str
raw (quotes k v) = b'"' ∷ (v ++ (b'"' ∷ []))
raw (word k v) = v

match_here-field :
    (f : Field) (s : Str)
    → IsField f
    → Stops is_word s
    → match_here (field_text f s)
      ≡ some (record { key = (pair f).0; value = raw f; rest = (span is_space (skip_comma s)).1 })
unfolding finish
match_here-field (quotes k v) s h e =
    match_here-key k (b'"' ∷ (v ++ (b'"' ∷ s))) h.0 h.1
    ∙ ap (finish k) (match_value-quotes v s h.2 h.3 h.4 h.5)
match_here-field (word k v) s h e =
    match_here-key k (v ++ s) h.0 h.1 ∙ ap (finish k) (match_value-word v s h.2 h.3 e)

search_from-here : (s : Str) (m : Match) → match_here s ≡ some m → search_from s ≡ some m
unfolding search_from
search_from-here [] m h = unfold match_here after_key span in cc
search_from-here (c ∷ s) m h = rw (h, search_from)

-- Where nothing matches at a byte, the search goes on behind it.
pub search_from-skip :
    (c : ℕ) (s : Str) → match_here (c ∷ s) ≡ none → search_from (c ∷ s) ≡ search_from s
unfolding search_from
search_from-skip c s h = rw (h, search_from)

last_is_quote-append : (v : Str) → last_is_quote (v ++ (b'"' ∷ [])) ≡ true
last_is_quote-append [] = refl
last_is_quote-append (c ∷ []) = refl
last_is_quote-append (c ∷ d ∷ v) = last_is_quote-append (d ∷ v)

unquote-raw : (f : Field) → IsField f → unquote (raw f) ≡ (pair f).1
unfolding unquote
unquote-raw (quotes k v) h =
    let e : length (v ++ (b'"' ∷ [])) ≡ length v + 1 = omega (arith, length-append v (b'"' ∷ [])) in
    let e' : suc (length (v ++ (b'"' ∷ []))) - 2 ≡ length v = omega arith in
    rw (last_is_quote-append (b'"' ∷ v), e') (take-length v (b'"' ∷ []))
unquote-raw (word k []) h = refl
unquote-raw (word k (c ∷ v)) h = rw (word_not_quote c h.3.0)

abbrev pub key_value : Match → Str × Str
key_value m = (m.key, unquote m.value)

Stops-field_text : (f : Field) (s : Str) → IsField f → Stops is_space (field_text f s)
Stops-field_text (quotes [] v) s h = absurd h.1
Stops-field_text (quotes (c ∷ k) v) s h = letter_not_space c h.0.0
Stops-field_text (word [] v) s h = absurd h.1
Stops-field_text (word (c ∷ k) v) s h = letter_not_space c h.0.0

Stops-fields_text :
    (f : Field) (fs : List Field) → IsField f → Stops is_space (fields_text (f ∷ fs))
Stops-fields_text f [] h = Stops-field_text f [] h
Stops-fields_text f (g ∷ fs) h = Stops-field_text f _ h

matches-nil : (fuel : ℕ) → matches fuel [] ≡ []
unfolding matches search_from
matches-nil zero = refl
matches-nil (suc fuel) = refl

-- One round of the iterator, at a field.
matches-field_text :
    (fuel : ℕ) (f : Field) (s : Str)
    → IsField f
    → Stops is_word s
    → map key_value (matches (suc fuel) (field_text f s))
      ≡ pair f ∷ map key_value (matches fuel (span is_space (skip_comma s)).1)
unfolding matches
matches-field_text fuel f s h e =
    rw (search_from-here (field_text f s) _ (match_here-field f s h e), matches)
      (ap (λ v. ((pair f).0, v) ∷ map key_value (matches fuel (span is_space (skip_comma s)).1))
        (unquote-raw f h))

-- One match for each field, with enough fuel.
pub matches-fields_text :
    (fuel : ℕ) (fs : List Field)
    → length fs < fuel
    → All IsField fs
    → map key_value (matches fuel (fields_text fs)) ≡ map pair fs
matches-fields_text zero fs h v = absurd (omega arith)
matches-fields_text (suc fuel) [] h v = ap (map key_value) (matches-nil (suc fuel))
matches-fields_text (suc fuel) (f ∷ []) h v =
    matches-field_text fuel f [] v.0 tt
    ∙ unfold skip_comma span in ap (λ ms. pair f ∷ map key_value ms) (matches-nil fuel)
matches-fields_text (suc fuel) (f ∷ g ∷ fs) h v =
    matches-field_text fuel f _ v.0 refl
    ∙ ap (λ s. pair f ∷ map key_value (matches fuel s)) next_text
    ∙ ap (◌∷◌ (pair f)) (matches-fields_text fuel (g ∷ fs) (omega arith) v.1)
  where
    next_text :
        (span is_space (skip_comma (b',' ∷ b' ' ∷ fields_text (g ∷ fs)))).1 ≡ fields_text (g ∷ fs)
    next_text =
        unfold skip_comma in
        ap (λ r. r.1)
          (span-append is_space (b' ' ∷ []) (fields_text (g ∷ fs)) (refl, tt)
            (Stops-fields_text g fs v.1.0))

matches_of_search :
    (fuel : ℕ) (s t : Str) → search_from s ≡ search_from t → matches fuel s ≡ matches fuel t
unfolding matches
matches_of_search zero s t h = refl
matches_of_search (suc fuel) s t h =
    ap (λ o. elim o [ none ↦ [] | some m ↦ m ∷ matches fuel m.rest ]) h

match_here-fields_text :
    (f : Field) (fs : List Field)
    → IsField f
    → (m : Match) × (match_here (fields_text (f ∷ fs)) ≡ some m)
match_here-fields_text f [] h = (_, match_here-field f [] h tt)
match_here-fields_text f (g ∷ fs) h = (_, match_here-field f _ h refl)

match_here-space : (s : Str) → match_here (b' ' ∷ s) ≡ match_here s
unfolding match_here span
match_here-space s = refl

skip_Digest : (s : Str) → search_from (codes "Digest " ++ s) ≡ search_from (b' ' ∷ s)
unfolding search_from match_here span after_key
skip_Digest s = refl

search_from-Digest :
    (s : Str) (m : Match) → match_here s ≡ some m → search_from (codes "Digest " ++ s) ≡ some m
search_from-Digest s m h = skip_Digest s ∙ search_from-here (b' ' ∷ s) m (match_here-space s ∙ h)

-- The scheme's name before the fields is no field.
pub matches-Digest :
    (fuel : ℕ) (f : Field) (fs : List Field)
    → length (f ∷ fs) < fuel
    → All IsField (f ∷ fs)
    → map key_value (matches fuel (codes "Digest " ++ fields_text (f ∷ fs))) ≡ map pair (f ∷ fs)
matches-Digest fuel f fs h v =
    let (m, e) = match_here-fields_text f fs v.0 in
    let same = search_from-Digest _ m e ∙ sym (search_from-here (fields_text (f ∷ fs)) m e) in
    ap (map key_value) (matches_of_search fuel _ _ same) ∙ matches-fields_text fuel (f ∷ fs) h v
