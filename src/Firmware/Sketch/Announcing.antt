-- ===== src/Firmware/Sketch/Announcing.antt =====
-- The board says of a gate that it has arrived, in the call of `loop` in which it does.
use gate_control.Base.{
  ℕ, zero, suc, ◌≤◌, ◌<◌, Bool, true, List, [], ◌∷◌, ◌++◌, append_assoc, Option, some, nth, ◌==◌,
  ◌≡◌, refl, sym, ap, ◌∙◌, arith, All-nth, nth-lt, inl, inr, Bool-cases, any, ==_iff,
}
use gate_control.Base.Text.{Str}
use gate_control.Base.Outcome.{ok}
use gate_control.Firmware.Gate.{GateState, Gate, tick, get_state, finished_moving}
use gate_control.Firmware.Gate.Position.{IsSound}
use gate_control.Firmware.Gate.Travel.{ticks}
use gate_control.Firmware.Gate.Arrival.{Arrives, most_ticks}
use gate_control.Firmware.Library.{Library, SquaresUnit}
use gate_control.Firmware.Sketch.{gate_pins_size, Board, result_message, gate_entry}
use gate_control.Firmware.Sketch.Messages.{command}
use gate_control.Firmware.Sketch.Handling.{under_way}
use gate_control.Firmware.Sketch.Loop.{update_gates, loop, indices}
use gate_control.Firmware.Sketch.Effects.{IsRunning, collect, report_of}
use gate_control.Firmware.Sketch.Ticking.{update_gates-AllTicked}
use gate_control.Firmware.Sketch.Journey.{
  Commands, StandsAfter, obeyed, loops_commanded, loop_quiet, loops, end_state, stands,
  command-Arrives,
}

ticks_last : (k : ℕ) (g : Gate) → ticks (suc k) g ≡ (tick (ticks k g)).1
ticks_last zero g = refl
ticks_last (suc k) g = ticks_last k (tick g).1

is_index : (id : ℕ) → id < gate_pins_size → any (◌==◌ id) indices ≡ true
is_index zero h = refl
is_index (suc zero) h = refl
is_index (suc (suc zero)) h = refl
is_index (suc (suc (suc zero))) h = refl
is_index (suc (suc (suc (suc zero)))) h = refl
is_index (suc (suc (suc (suc (suc zero))))) h = refl
is_index (suc (suc (suc (suc (suc (suc zero)))))) h = refl
is_index (suc (suc (suc (suc (suc (suc (suc id))))))) h = absurd (omega arith)

-- What one gate gives is a part of what all give.
part_of_collect {ℓ} :
    {A : Type ℓ} (f : ℕ → Option Gate → List A) (id : ℕ) (is : List ℕ) (gates : List Gate)
    → any (◌==◌ id) is ≡ true
    → (pre : List A) × (post : List A) × (collect f is gates ≡ pre ++ f id (nth id gates) ++ post)
part_of_collect f id [] gates h = absurd (cc h)
part_of_collect f id (i ∷ is) gates h = elim (Bool-cases (id == i)) [
  | inl t ↦
      let e : i ≡ id = sym ((==_iff id i).0 t) in
      ([], collect f is gates, ap (λ k. f k (nth k gates) ++ collect f is gates) e)
  | inr b ↦
      let (pre, post, e) = part_of_collect f id is gates (ground arith) in
      (
        f i (nth i gates) ++ pre,
        post,
        ap (λ l. f i (nth i gates) ++ l) (e ∙ append_assoc pre (f id (nth id gates)) post)
            ∙ sym (append_assoc (f i (nth i gates)) pre (f id (nth id gates) ++ post))
            ∙ sym (append_assoc (f i (nth i gates) ++ pre) (f id (nth id gates)) post),
      )
]

regrouped {ℓ} :
    {A : Type ℓ} (w a p x q : List A) → (w ++ a) ++ (p ++ x ++ q) ≡ w ++ (a ++ p ++ x ++ q)
regrouped w a p x q =
    append_assoc w a (p ++ x ++ q)
    ∙ ap (λ l. w ++ l)
        (sym (append_assoc a (p ++ x) q) ∙ ap (λ l. l ++ q) (sym (append_assoc a p x)))

module _ (L : Library) where
  -- The call of `loop` after some others, in which the board says the state of a gate.
  abbrev pub TellsIn : ℕ → Board L → ℕ → GateState → Type 0
  TellsIn k b id s =
      (before : Board L) × (after : Board L) × (pre : Str) × (post : Str) × (loops L k b
        ≡ ok before)
      × (loop L before ≡ ok after)
      × (after.written
          ≡ before.written ++ (pre ++ result_message L (gate_entry L id s ∷ []) ++ post))

  module _ (law : SquaresUnit L.powf) where
    -- Where the gate has just finished, `update_gates` has said so.
    update_gates-tells :
        (b : Board L) (id : ℕ) (g : Gate) (s : GateState)
        → IsRunning L b
        → id < gate_pins_size
        → nth id b.gates ≡ some g
        → finished_moving (tick g).1 ≡ true
        → get_state (tick g).1 ≡ ok s
        → (after : Board L) × (pre : Str) × (post : Str) × (update_gates L b ≡ ok after)
          × (after.written
              ≡ b.written ++ (pre ++ result_message L (gate_entry L id s ∷ []) ++ post))
    update_gates-tells b id g s running there at finished is =
        let (after, e, ticked) = update_gates-AllTicked L law b running in
        let (pre, post, split) =
          part_of_collect (report_of L) id indices b.gates (is_index id there) in
        let said : report_of L id (nth id b.gates) ≡ result_message L (gate_entry L id s ∷ []) =
          rw (at, finished, is) refl in
        (
          after,
          pre,
          post,
          e,
          ticked.reported ∙ ap (λ l. b.written ++ l) (split ∙ ap (λ x. pre ++ x ++ post) said),
        )

    tells :
        (k : ℕ) (b : Board L) (id : ℕ) (up : Bool) (g : Gate) (s : GateState)
        → IsRunning L b
        → Commands L b id up
        → nth id b.gates ≡ some g
        → finished_moving (ticks (suc k) (command up g)) ≡ true
        → get_state (ticks (suc k) (command up g)) ≡ ok s
        → TellsIn k b id s
    unfolding loop
    tells zero b id up g s running c at finished is =
        let (b₁, o) = obeyed L law b id up g running c at in
        let (after, pre, post, e, text) =
          update_gates-tells b₁ id (command up g) s o.running c.there o.told finished is in
        let answer = result_message L (gate_entry L id (under_way up) ∷ []) in
        (
          b,
          after,
          answer ++ pre,
          post,
          refl,
          rw (o.read, e) refl,
          text
              ∙ ap (λ w. w ++ (pre ++ result_message L (gate_entry L id s ∷ []) ++ post)) o.answered
              ∙ regrouped b.written answer pre (result_message L (gate_entry L id s ∷ [])) post,
        )
    tells (suc k) b id up g s running c at finished is =
        let last = ticks_last (suc k) (command up g) in
        let (before, e, (running', quiet, at')) = loops_commanded L law k b id up g running c at in
        let (after, pre, post, e', text) =
          update_gates-tells before id (ticks (suc k) (command up g)) s running' c.there at'
            (ap finished_moving (sym last) ∙ finished) (ap get_state (sym last) ∙ is) in
        (before, after, pre, post, e, loop_quiet L before (rw quiet refl) ∙ e', text)

    -- Where `powf` squares the floats from 0 to 1 to such floats, and a running board has one
    -- message to read, which asks for a state of a gate that there is: with no further bytes, the
    -- gate is on its way to that state after each call of `loop` until, within 101 calls, one
    -- brings it there; and in this call the board sends that the gate has that state.
    pub loops-TellsIn :
        (b : Board L) (id : ℕ) (up : Bool)
        → IsRunning L b
        → Commands L b id up
        → (k : ℕ) × (k < most_ticks)
          × ((i : ℕ) → 0 < i → i ≤ k → StandsAfter L i b id (under_way up))
          × StandsAfter L (suc k) b id (end_state up)
          × TellsIn k b id (end_state up)
    loops-TellsIn b id up running c =
        let (g, at) = nth-lt id b.gates (rw running.has.seven c.there) in
        from_arrival g at (command-Arrives up g (All-nth IsSound id b.gates running.has.sound at))
      where
        from_arrival :
            (g : Gate)
            → nth id b.gates ≡ some g
            → Arrives most_ticks (under_way up) (end_state up) (command up g)
            → (k : ℕ) × (k < most_ticks)
              × ((i : ℕ) → 0 < i → i ≤ k → StandsAfter L i b id (under_way up))
              × StandsAfter L (suc k) b id (end_state up)
              × TellsIn k b id (end_state up)
        from_arrival g at (zero, some_calls, _, _, _, _) = absurd (omega arith)
        from_arrival g at (suc k, some_calls, few, before, at_end, done) = (
          k,
          few,
          λ i h m. stands L law i b id up g (under_way up) running c at h (before i (omega arith)),
          stands L law (suc k) b id up g (end_state up) running c at some_calls at_end,
          tells k b id up g (end_state up) running c at done at_end,
        )
