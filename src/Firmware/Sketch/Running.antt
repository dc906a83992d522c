-- ===== src/Firmware/Sketch/Running.antt =====
-- The board from its start on: what each call of `loop` does, and what holds at all times.
use gate_control.Base.{true, false, length, ◌==◌, ◌≡◌, refl, sym, subst, ◌⊎◌, inl, inr, Bool-cases}
use gate_control.Base.Outcome.{Outcome, ok, undefined, ok-elim}
use gate_control.Firmware.Gate.Position.{new_gate-IsSound}
use gate_control.Firmware.Library.{Library, SquaresUnit}
use gate_control.Firmware.Sketch.{Board}
use gate_control.Firmware.Sketch.Messages.{handle_message}
use gate_control.Firmware.Sketch.Answers.{HasGates, command-HasGates}
use gate_control.Firmware.Sketch.Handling.{
  Handled, skipped, commanded, queried, failed, handle_message-Handled,
}
use gate_control.Firmware.Sketch.Loop.{
  powered_on, setup, take_document, loop, Step, arrive, looped, Reaches, start, next,
}
use gate_control.Firmware.Sketch.Effects.{IsRunning}
use gate_control.Firmware.Sketch.Ticking.{AllTicked, update_gates-AllTicked}

module _ (L : Library) where
  pub setup-IsRunning : (doc : L.Value) → IsRunning L (setup L (powered_on L doc))
  unfolding setup
  setup-IsRunning doc =
      let new = new_gate-IsSound in
      record {
        has = record { seven = refl; sound = (new, (new, (new, (new, (new, (new, (new, tt))))))) };
        writes = tt;
      }

  -- A message that is handled leaves the gates sound, and writes to no pin.
  Handled-IsRunning :
      (b b' : Board L) (o : Outcome (Board L))
      → IsRunning L b
      → Handled L b o
      → o ≡ ok b'
      → IsRunning L b'
  Handled-IsRunning b b' o running (skipped _) e = ok-elim (IsRunning L) e running
  Handled-IsRunning b b' o running (commanded {id} {up} {gates} _ _ _ _ _ _ g) e =
      ok-elim (IsRunning L) e (record {
        has = subst HasGates (sym g) (command-HasGates id up b.gates running.has);
        writes = running.writes;
      })
  Handled-IsRunning b b' o running (queried _ _ _ _) e =
      ok-elim (IsRunning L) e (record { has = running.has; writes = running.writes })
  Handled-IsRunning b b' o running (failed _ _) e = absurd (cc e)

  -- The board with the document that stands at the start of what the port has received.
  abbrev pub with_document : Board L → Board L
  with_document b = take_document L (L.deserialize b.received) b

  -- A board, and how a call of `loop` ends on it.
  pub data Looped (b : Board L) : Outcome (Board L) → Type 0 where
    idle : {b' : Board L} → (length b.received == 0) ≡ true → AllTicked L b b' → Looped b (ok b')
    served :
        {b₁ b' : Board L}
        → (length b.received == 0) ≡ false
        → Handled L (with_document b) (ok b₁)
        → AllTicked L b₁ b'
        → Looped b (ok b')
    halted :
        (length b.received == 0) ≡ false
        → Handled L (with_document b) undefined
        → Looped b undefined

  Handled-cases :
      {b : Board L} {o : Outcome (Board L)}
      → Handled L b o
      → ((b' : Board L) × (o ≡ ok b')) ⊎ (o ≡ undefined)
  Handled-cases (skipped _) = inl (_, refl)
  Handled-cases (commanded _ _ _ _ _ _ _) = inl (_, refl)
  Handled-cases (queried _ _ _ _) = inl (_, refl)
  Handled-cases (failed _ _) = inr refl

  document-IsRunning : (b : Board L) → IsRunning L b → IsRunning L (with_document b)
  document-IsRunning b running = record { has = running.has; writes = running.writes }

  module _ (law : SquaresUnit L.powf) where
    -- Where `powf` squares the floats from 0 to 1 to such floats, a call of `loop` on a running
    -- board with bytes to read handles the document at their start as a message, and is undefined
    -- where the handling is. Then, and at once where there is no byte to read, every gate ticks
    -- once; the state of each that has then just finished is sent, and the position of each that
    -- moved is written to its pin, in the order of the gates.
    pub loop-Looped : (b : Board L) → IsRunning L b → Looped b (loop L b)
    unfolding loop
    loop-Looped b running = elim (Bool-cases (length b.received == 0)) [
      | inl t ↦
          let (b', e, ticked) = update_gates-AllTicked L law b running in rw (t, e) (idle t ticked)
      | inr f ↦
          let w = with_document b in
          let running_w = document-IsRunning b running in
          let handled = handle_message-Handled L w running_w.has in
          elim (Handled-cases handled) [
            | inl (b₁, o) ↦
                let running₁ = Handled-IsRunning w b₁ (handle_message L w) running_w handled o in
                let (b', e, ticked) = update_gates-AllTicked L law b₁ running₁ in
                rw (f, o, e) (served f (subst (Handled L w) o handled) ticked)
            | inr o ↦ rw (f, o) (halted f (subst (Handled L w) o handled))
          ]
    ]

    Looped-IsRunning :
        (b b' : Board L) (o : Outcome (Board L)) → Looped b o → o ≡ ok b' → IsRunning L b'
    Looped-IsRunning b b' o (idle _ ticked) e = ok-elim (IsRunning L) e ticked.running
    Looped-IsRunning b b' o (served _ _ ticked) e = ok-elim (IsRunning L) e ticked.running
    Looped-IsRunning b b' o (halted _ _) e = absurd (cc e)

    Step-IsRunning : (b b' : Board L) → IsRunning L b → Step L b b' → IsRunning L b'
    Step-IsRunning b b' running (arrive bytes e) =
        subst (IsRunning L) (sym e) (record { has = running.has; writes = running.writes })
    Step-IsRunning b b' running (looped e) =
        Looped-IsRunning b b' (loop L b) (loop-Looped b running) e

    from_running : (a b : Board L) → IsRunning L a → Reaches L a b → IsRunning L b
    from_running a b running start = running
    from_running a b running (next {b = b'} reached step) =
        Step-IsRunning b' b (from_running a b' running reached) step

    -- Where `powf` squares the floats from 0 to 1 to such floats, every board that bytes and calls
    -- of `loop` lead to from `setup` has seven gates, each between down and up, and down or up when
    -- it is at rest; and every value that was written to a pin so far is below 256, and for the pin
    -- of a gate.
    pub Reaches-IsRunning :
        (doc : L.Value) (b : Board L) → Reaches L (setup L (powered_on L doc)) b → IsRunning L b
    Reaches-IsRunning doc b reached =
        from_running (setup L (powered_on L doc)) b (setup-IsRunning doc) reached
