-- ===== src/Firmware/Sketch/Ticking.antt =====
-- `update_gates` as a whole: every gate ticks once.
use gate_control.Base.{
  false, ◌==◌, sym, ◌++◌, ap₂, append-nil, append_assoc, length, ℕ, zero, suc, ◌+◌, ◌≤◌, ◌<◌, List,
  [], ◌∷◌, Option, none, some, nth, leb, ◌≡◌, refl, ap, ◌∙◌, inl, inr, arith, All, nth-ge, apply_to,
  Bool-cases,
}
use gate_control.Base.Outcome.{ok}
use gate_control.Firmware.Gate.{Gate, tick}
use gate_control.Firmware.Gate.Travel.{ticks}
use gate_control.Firmware.Library.{Library, SquaresUnit}
use gate_control.Firmware.Sketch.{gate_pins_size, Board}
use gate_control.Firmware.Sketch.Loop.{update_each, update_gates, indices}
use gate_control.Firmware.Sketch.Effects.{IsRunning, collect, report_of, shown_of, count, Updates}
use gate_control.Firmware.Sketch.Updating.{update_gate-Updates}

abbrev pub tick_once : Gate → Gate
tick_once g = (tick g).1

apply_two :
    (m n : ℕ) (o : Option Gate)
    → m ≤ 1
    → apply_to (ticks n) (apply_to (ticks m) o) ≡ apply_to (ticks (m + n)) o
apply_two m n none h = refl
apply_two zero n (some g) h = ap (λ k. some (ticks k g)) {x = n} {y = 0 + n} (omega arith)
apply_two (suc zero) n (some g) h = ap (λ k. some (ticks k g)) {x = suc n} {y = 1 + n} (omega arith)
apply_two (suc (suc m)) n (some g) h = absurd (omega arith)

count_first : (j i : ℕ) (is : List ℕ) → count j (i ∷ []) + count j is ≡ count j (i ∷ is)
count_first j i is = ground arith

count_one-le : (j i : ℕ) → count j (i ∷ []) ≤ 1
count_one-le j i = ground arith

-- The numbers of the gates are counted once each.
count-indices : (j : ℕ) → j < gate_pins_size → count j indices ≡ 1
count-indices zero h = refl
count-indices (suc zero) h = refl
count-indices (suc (suc zero)) h = refl
count-indices (suc (suc (suc zero))) h = refl
count-indices (suc (suc (suc (suc zero)))) h = refl
count-indices (suc (suc (suc (suc (suc zero))))) h = refl
count-indices (suc (suc (suc (suc (suc (suc zero)))))) h = refl
count-indices (suc (suc (suc (suc (suc (suc (suc j))))))) h = absurd (omega arith)

-- Each number stands once.
abbrev pub OnceEach : List ℕ → Type 0
OnceEach [] = Unit
OnceEach (i ∷ is) = (count i is ≡ 0) × OnceEach is

indices-OnceEach : OnceEach indices
indices-OnceEach = (refl, (refl, (refl, (refl, (refl, (refl, (refl, tt)))))))

one_tick : (o : Option Gate) → apply_to (ticks 1) o ≡ apply_to tick_once o
one_tick none = refl
one_tick (some g) = refl

no_tick : (o : Option Gate) → apply_to (ticks 0) o ≡ o
no_tick none = refl
no_tick (some g) = refl

-- What a gate that did not tick gives is the same as before.
collect-other {ℓ} :
    {A : Type ℓ} (f : ℕ → Option Gate → List A) (i : ℕ) (is : List ℕ) (gates gates' : List Gate)
    → ((j : ℕ) → nth j gates' ≡ apply_to (ticks (count j (i ∷ []))) (nth j gates))
    → count i is ≡ 0
    → collect f is gates' ≡ collect f is gates
collect-other f i [] gates gates' each absent = refl
collect-other f i (j ∷ is) gates gates' each absent =
    let other : (i == j) ≡ false = ground arith in
    let other' : (j == i) ≡ false = ground arith in
    let rest : count i is ≡ 0 = ground arith in
    let same : nth j gates' ≡ nth j gates = each j ∙ rw other' (no_tick (nth j gates)) in
    ap₂ (λ x xs. x ++ xs) (ap (f j) same) (collect-other f i is gates gates' each rest)

-- One after the other.
join_collected {ℓ} :
    {A : Type ℓ} (a b c : List A) (x xs xs' : List A)
    → b ≡ a ++ (x ++ [])
    → c ≡ b ++ xs'
    → xs' ≡ xs
    → c ≡ a ++ (x ++ xs)
join_collected a b c x xs xs' first rest same =
    rest ∙ ap₂ (λ l r. l ++ r) (first ∙ ap (λ l. a ++ l) (append-nil x)) same ∙ append_assoc a x xs

module _ (L : Library) where
  none-Updates : (b : Board L) → IsRunning L b → Updates L [] b b
  none-Updates b running = record {
    running = running;
    same_doc = refl;
    same_received = refl;
    each = λ j. sym (no_tick (nth j b.gates));
    reported = sym (append-nil b.written);
    shown = sym (append-nil b.analog_writes);
  }

  next-Updates :
      (i : ℕ) (is : List ℕ) (a b c : Board L)
      → count i is ≡ 0
      → Updates L (i ∷ []) a b
      → Updates L is b c
      → Updates L (i ∷ is) a c
  next-Updates i is a b c absent first rest = record {
    running = rest.running;
    same_doc = rest.same_doc ∙ first.same_doc;
    same_received = rest.same_received ∙ first.same_received;
    each = λ j.
        rest.each j
        ∙ ap (apply_to (ticks (count j is))) (first.each j)
        ∙ apply_two (count j (i ∷ [])) (count j is) (nth j a.gates) (count_one-le j i)
        ∙ ap (λ k. apply_to (ticks k) (nth j a.gates)) (count_first j i is);
    reported =
        join_collected a.written b.written c.written _ _ _ first.reported rest.reported
          (collect-other (report_of L) i is a.gates b.gates first.each absent);
    shown =
        join_collected a.analog_writes b.analog_writes c.analog_writes _ _ _ first.shown rest.shown
          (collect-other (shown_of L) i is a.gates b.gates first.each absent);
  }

  update_each-Updates :
      (law : SquaresUnit L.powf) (is : List ℕ) (b : Board L)
      → All (λ i. i < gate_pins_size) is
      → OnceEach is
      → IsRunning L b
      → (b' : Board L) × (update_each L is b ≡ ok b') × Updates L is b b'
  unfolding update_each
  update_each-Updates law [] b small once running = (b, refl, none-Updates b running)
  update_each-Updates law (i ∷ is) b small once running =
      let (b', one, first) = update_gate-Updates L law i b small.0 running in
      let (b'', others, rest) = update_each-Updates law is b' small.1 once.1 first.running in
      (b'', rw (one, others) refl, next-Updates i is b b' b'' once.0 first rest)

  -- A board whose gates have all ticked once: it has sent the state of each that has then just
  -- finished, and written the position of each that moved to its pin, in their order; the document
  -- and what was received stayed.
  pub record AllTicked (b b' : Board L) : Type 0 where
    pub running : IsRunning L b'
    pub same_doc : b'.doc ≡ b.doc
    pub same_received : b'.received ≡ b.received
    pub each : (j : ℕ) → nth j b'.gates ≡ apply_to tick_once (nth j b.gates)
    pub reported : b'.written ≡ b.written ++ collect (report_of L) indices b.gates
    pub shown : b'.analog_writes ≡ b.analog_writes ++ collect (shown_of L) indices b.gates

  all_once :
      (gates : List Gate) (j : ℕ)
      → length gates ≡ gate_pins_size
      → apply_to (ticks (count j indices)) (nth j gates) ≡ apply_to tick_once (nth j gates)
  all_once gates j seven = elim (Bool-cases (leb gate_pins_size j)) [
    | inl t ↦ let far : gate_pins_size ≤ j = ground arith in rw (nth-ge j gates (rw seven far)) refl
    | inr f ↦ rw (count-indices j (ground arith)) (one_tick (nth j gates))
  ]

  -- `update_gates` of a running board has a result, in which every gate has ticked once.
  pub update_gates-AllTicked :
      (law : SquaresUnit L.powf) (b : Board L)
      → IsRunning L b
      → (b' : Board L) × (update_gates L b ≡ ok b') × AllTicked b b'
  unfolding update_gates
  update_gates-AllTicked law b running =
      let (b', e, updates) =
        update_each-Updates law indices b (ground arith) indices-OnceEach running in
      (
        b',
        e,
        record {
          running = updates.running;
          same_doc = updates.same_doc;
          same_received = updates.same_received;
          each = λ j. updates.each j ∙ all_once b.gates j running.has.seven;
          reported = updates.reported;
          shown = updates.shown;
        },
      )
