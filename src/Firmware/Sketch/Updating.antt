-- ===== src/Firmware/Sketch/Updating.antt =====
-- `update_gates` on sound gates: each gate ticks once, and what is written to the pins is in range.
use gate_control.Base.{
  leb, append-nil, ==_refl, ℕ, zero, suc, ◌*◌, ◌/◌, ◌≤◌, ◌<◌, Bool, true, false, List, [], ◌∷◌,
  ◌++◌, Option, none, some, nth, modify, ltb, ◌==◌, if◌then◌else◌, ◌≡◌, refl, sym, ap, ◌∙◌, inl,
  inr, arith, All-append, All-nth, All-modify, length-modify, nth-lt, nth-modify, apply_to,
  Bool-cases, subst, ==_iff, any,
}
use gate_control.Base.Outcome.{ok}
use gate_control.Firmware.Float.{Float, round, one_units}
use gate_control.Firmware.Float.Laws.{round_bounds}
use gate_control.Firmware.Gate.{Gate, get_state, tick, finished_moving}
use gate_control.Firmware.Gate.Position.{Within, IsSound, get_state_defined, tick-IsSound}
use gate_control.Firmware.Gate.Travel.{ticks}
use gate_control.Firmware.Library.{Library, SquaresUnit}
use gate_control.Firmware.Sketch.{
  gate_entry, result_message, gate_pins, gate_pins_size, Board, write, pin_or, id_entries, send_ids,
}
use gate_control.Firmware.Sketch.Answers.{HasGates}
use gate_control.Firmware.Sketch.Effects.{
  IsWrite, count, text_of, write_of, IsRunning, Keeps, Updates,
}
use gate_control.Firmware.Sketch.Loop.{
  brightness, show, report, set_gate, update_gate, analog_write,
}

pin_of_gate :
    (i : ℕ) → i < gate_pins_size → any (◌==◌ (pin_or 0 (nth i gate_pins))) gate_pins ≡ true
pin_of_gate zero h = refl
pin_of_gate (suc zero) h = refl
pin_of_gate (suc (suc zero)) h = refl
pin_of_gate (suc (suc (suc zero))) h = refl
pin_of_gate (suc (suc (suc (suc zero)))) h = refl
pin_of_gate (suc (suc (suc (suc (suc zero))))) h = refl
pin_of_gate (suc (suc (suc (suc (suc (suc zero)))))) h = refl
pin_of_gate (suc (suc (suc (suc (suc (suc (suc i))))))) h = absurd (omega arith)

in_byte : (m : ℕ) → m ≤ one_units → round (255 * m) / one_units ≤ 255
in_byte m h = let bounds = round_bounds 133 (255 * m) (omega arith) in omega arith

set-HasGates :
    (i : ℕ) (g : Gate) (gates : List Gate)
    → IsSound g
    → HasGates gates
    → HasGates (modify i (λ _. g) gates)
set-HasGates i g gates sound has = record {
  seven = length-modify i (λ _. g) gates ∙ has.seven;
  sound = All-modify IsSound i (λ _. g) gates (λ _ _. sound) has.sound;
}

add_nil {ℓ} : {A : Type ℓ} (xs ys : List A) → xs ++ ys ≡ xs ++ (ys ++ [])
add_nil xs ys = ap (λ l. xs ++ l) (sym (append-nil ys))

apply_id : (o : Option Gate) → apply_to (ticks 0) o ≡ o
apply_id none = refl
apply_id (some g) = refl

set_each :
    (i : ℕ) (g : Gate) (gates : List Gate)
    → nth i gates ≡ some g
    → (j : ℕ)
    → nth j (modify i (λ _. (tick g).1) gates) ≡ apply_to (ticks (count j (i ∷ []))) (nth j gates)
set_each i g gates at j = nth-modify j i (λ _. (tick g).1) gates ∙ (elim (Bool-cases (j == i)) [
  | inl t ↦
      let e : nth j gates ≡ some g = ap (λ k. nth k gates) ((==_iff j i).0 t) ∙ at in rw (t, e) refl
  | inr f ↦ rw f (sym (apply_id (nth j gates)))
])

module _ (L : Library) (law : SquaresUnit L.powf) where
  -- Where `powf` squares the floats from 0 to 1 to such floats, the brightness of a gate from down
  -- to up is a value from 0 to 255, so its conversion to `unsigned char` is defined.
  pub brightness-le :
      (state : Float) → Within state → (v : ℕ) × (brightness L state ≡ ok v) × (v ≤ 255)
  unfolding brightness
  brightness-le state (n, at, h) =
      let (m, e, k) = law n h in
      let le = in_byte m k in
      let fits : ltb (round (255 * m) / one_units) 256 ≡ true = ground arith in
      (round (255 * m) / one_units, rw (at, e, fits) refl, le)

  show-Keeps :
      (changed : Bool) (i : ℕ) (g : Gate) (b : Board L)
      → i < gate_pins_size
      → IsSound g
      → (b' : Board L) × (show L changed i g b ≡ ok b')
        × Keeps L b b'
        × (b'.written ≡ b.written)
        × (b'.analog_writes
            ≡ b.analog_writes ++ (if changed then write_of L i (brightness L g.state) else []))
  show-Keeps false i g b h sound =
      (b, refl, (refl, refl, refl, λ w. w), refl, sym (append-nil b.analog_writes))
  show-Keeps true i g b h sound =
      let (v, e, le) = brightness-le g.state sound.within in
      let pin = pin_or 0 (nth i gate_pins) in
      (
        analog_write L pin v b,
        rw e refl,
        (
          refl,
          refl,
          refl,
          λ w. All-append IsWrite b.analog_writes ((pin, v) ∷ []) w ((pin_of_gate i h, le), tt),
        ),
        refl,
        rw e refl,
      )

  report-Keeps :
      (finished : Bool) (i : ℕ) (g : Gate) (b : Board L)
      → i < gate_pins_size
      → HasGates b.gates
      → nth i b.gates ≡ some g
      → (b' : Board L) × (report L finished i b ≡ ok b')
        × Keeps L b b'
        × (b'.written ≡ b.written ++ (if finished then text_of L i (get_state g) else []))
        × (b'.analog_writes ≡ b.analog_writes)
  unfolding send_ids id_entries
  report-Keeps false i g b h has at =
      (b, refl, (refl, refl, refl, λ w. w), sym (append-nil b.written), refl)
  report-Keeps true i g b h has at =
      let (s, is) = get_state_defined g (All-nth IsSound i b.gates has.sound at) in
      let here : leb gate_pins_size i ≡ false = ground arith in
      (
        write L (result_message L (gate_entry L i s ∷ [])) b,
        rw (here, at, is) refl,
        (refl, refl, refl, λ w. w),
        rw is refl,
        refl,
      )

  pub update_gate-Updates :
      (i : ℕ) (b : Board L)
      → i < gate_pins_size
      → IsRunning L b
      → (b' : Board L) × (update_gate L i b ≡ ok b') × Updates L (i ∷ []) b b'
  unfolding update_gate
  update_gate-Updates i b h running =
      let (g, at) = nth-lt i b.gates (rw running.has.seven h) in
      let sound = tick-IsSound g (All-nth IsSound i b.gates running.has.sound at) in
      let g' = (tick g).1 in
      let b₁ = set_gate L i g' b in
      let has₁ : HasGates b₁.gates = set-HasGates i g' b.gates sound running.has in
      let at₁ : nth i b₁.gates ≡ some g' =
        nth-modify i i (λ _. g') b.gates ∙ rw (==_refl i, at) refl in
      let (b₂, shown, (gates₂, doc₂, received₂, fit₂), written₂, writes₂) =
        show-Keeps (tick g).0 i g' b₁ h sound in
      let (b₃, reported, (gates₃, doc₃, received₃, fit₃), written₃, writes₃) =
        report-Keeps (finished_moving g') i g' b₂ h (subst HasGates (sym gates₂) has₁)
          (ap (nth i) gates₂ ∙ at₁) in
      (
        b₃,
        rw (at, shown, reported) refl,
        record {
          running = record {
            has = subst HasGates (sym (gates₃ ∙ gates₂)) has₁;
            writes = fit₃ (fit₂ running.writes);
          };
          same_doc = doc₃ ∙ doc₂;
          same_received = received₃ ∙ received₂;
          each = λ j. ap (nth j) (gates₃ ∙ gates₂) ∙ set_each i g b.gates at j;
          reported = written₃ ∙ rw (written₂, at) (add_nil b.written _);
          shown = writes₃ ∙ writes₂ ∙ rw at (add_nil b.analog_writes _);
        },
      )
