-- ===== src/Firmware/Sketch/Journey.antt =====
-- From a message of the server to the end of a gate's way, through the calls of `loop`.
use gate_control.Base.{
  ℕ, zero, suc, ◌≤◌, ◌<◌, Bool, true, false, [], ◌∷◌, ◌++◌, some, length, nth, modify, ◌==◌, ◌≡◌,
  refl, ◌∙◌, arith, All-nth, nth-lt, nth-modify, ==_refl,
}
use gate_control.Base.Text.{codes, str_eq}
use gate_control.Base.Outcome.{Outcome, ok, ◌>>=◌}
use gate_control.Firmware.Gate.{GateState, raised, lowered, Gate, tick, get_state}
use gate_control.Firmware.Gate.Position.{IsSound}
use gate_control.Firmware.Gate.Travel.{ticks}
use gate_control.Firmware.Gate.Arrival.{Arrives, most_ticks, raise-Arrives}
use gate_control.Firmware.Library.{Library, SquaresUnit}
use gate_control.Firmware.Sketch.{gate_pins_size, Board, result_message, gate_entry, send_ids}
use gate_control.Firmware.Sketch.Messages.{command, handle_message, change_state}
use gate_control.Firmware.Sketch.Answers.{command-HasGates}
use gate_control.Firmware.Sketch.Handling.{
  HasType, payload_of, id_of, state_of, under_way, moved_entry,
}
use gate_control.Firmware.Sketch.Loop.{update_gates, read_message, loop}
use gate_control.Firmware.Sketch.Effects.{IsRunning}
use gate_control.Firmware.Sketch.Ticking.{update_gates-AllTicked}

-- The state at the end of the way.
abbrev pub end_state : Bool → GateState
end_state true = raised
end_state false = lowered

pub command-Arrives :
    (up : Bool) (g : Gate)
    → IsSound g
    → Arrives most_ticks (under_way up) (end_state up) (command up g)
command-Arrives true g sound = (raise-Arrives g sound).0
command-Arrives false g sound = (raise-Arrives g sound).1

module _ (L : Library) where
  -- Calls of `loop`, without a byte that arrives in between.
  abbrev pub loops : ℕ → Board L → Outcome (Board L)
  loops zero b = ok b
  loops (suc k) b = let rest = loops k in loop L b >>= λ b'. rest b'

  -- A board with one message to read, which moves a gate that there is.
  pub record Commands (b : Board L) (id : ℕ) (up : Bool) : Type 0 where
    pub doc : L.Value
    pub pending : (length b.received == 0) ≡ false
    pub read : L.deserialize b.received ≡ (doc, [])
    pub not_null : L.is_null doc ≡ false
    pub typed : HasType L doc (codes "change_state")
    pub object : L.is_object (payload_of L doc) ≡ true
    pub for_gate : id_of L doc ≡ some id
    pub to_state : state_of L doc ≡ some up
    pub there : id < gate_pins_size

  -- After some calls of `loop` the gate has a state.
  abbrev pub StandsAfter : ℕ → Board L → ℕ → GateState → Type 0
  StandsAfter k b id s =
      (b' : Board L) × (loops k b ≡ ok b')
      × ((g : Gate) × (nth id b'.gates ≡ some g) × (get_state g ≡ ok s))

  -- A quiet board after some calls of `loop`.
  abbrev pub QuietAfter : ℕ → Board L → ℕ → Gate → Type 0
  QuietAfter k b id g =
      (b' : Board L) × (loops k b ≡ ok b')
      × (IsRunning L b' × (b'.received ≡ []) × (nth id b'.gates ≡ some (ticks k g)))

  -- A board that has read its message: the gate is told, and the answer is written.
  pub record Obeys (b b₁ : Board L) (id : ℕ) (up : Bool) (g : Gate) : Type 0 where
    pub read : read_message L b ≡ ok b₁
    pub running : IsRunning L b₁
    pub quiet : b₁.received ≡ []
    pub told : nth id b₁.gates ≡ some (command up g)
    pub answered : b₁.written ≡ b.written ++ result_message L (gate_entry L id (under_way up) ∷ [])

  pub loop_quiet : (b : Board L) → (length b.received == 0) ≡ true → loop L b ≡ update_gates L b
  unfolding loop
  loop_quiet b t = rw t refl

  module _ (law : SquaresUnit L.powf) where
    quiet_loops :
        (k : ℕ) (b : Board L) (id : ℕ) (g : Gate)
        → IsRunning L b
        → b.received ≡ []
        → nth id b.gates ≡ some g
        → QuietAfter k b id g
    quiet_loops zero b id g running quiet at = (b, refl, (running, quiet, at))
    quiet_loops (suc k) b id g running quiet at =
        let (b', e, ticked) = update_gates-AllTicked L law b running in
        let one : loop L b ≡ ok b' = loop_quiet b (rw quiet refl) ∙ e in
        let at' : nth id b'.gates ≡ some (tick g).1 = ticked.each id ∙ rw at refl in
        let (c, e', (running', quiet', at'')) =
          quiet_loops k b' id (tick g).1 ticked.running (ticked.same_received ∙ quiet) at' in
        (c, rw one e', (running', quiet', at''))

    pub obeyed :
        (b : Board L) (id : ℕ) (up : Bool) (g : Gate)
        → IsRunning L b
        → Commands b id up
        → nth id b.gates ≡ some g
        → (b₁ : Board L) × Obeys b b₁ id up g
    unfolding handle_message change_state send_ids str_eq
    obeyed b id up g running c at =
        let entry_of_it = moved_entry L id up b.gates running.has.seven c.there in
        let text = result_message L (gate_entry L id (under_way up) ∷ []) in
        (
          record b {
            gates = modify id (command up) b.gates;
            doc = c.doc;
            received = [];
            written = b.written ++ text;
          },
          record {
            read =
                rw
                  (
                    c.pending, c.read, c.not_null, c.typed, c.object, c.for_gate, c.to_state, at,
                    entry_of_it,
                  )
                  refl;
            running = record {
              has = command-HasGates id up b.gates running.has;
              writes = running.writes;
            };
            quiet = refl;
            told = nth-modify id id (command up) b.gates ∙ rw (==_refl id, at) refl;
            answered = refl;
          },
        )

    pub loops_commanded :
        (k : ℕ) (b : Board L) (id : ℕ) (up : Bool) (g : Gate)
        → IsRunning L b
        → Commands b id up
        → nth id b.gates ≡ some g
        → QuietAfter (suc k) b id (command up g)
    unfolding loop
    loops_commanded k b id up g running c at =
        let (b₁, o) = obeyed b id up g running c at in
        let (b₂, updated, ticked) = update_gates-AllTicked L law b₁ o.running in
        let at₂ : nth id b₂.gates ≡ some (tick (command up g)).1 =
          ticked.each id ∙ rw o.told refl in
        let (b', e, quiet) =
          quiet_loops k b₂ id (tick (command up g)).1 ticked.running
            (ticked.same_received ∙ o.quiet) at₂ in
        (b', rw (o.read, updated) e, quiet)

    pub stands :
        (k : ℕ) (b : Board L) (id : ℕ) (up : Bool) (g : Gate) (s : GateState)
        → IsRunning L b
        → Commands b id up
        → nth id b.gates ≡ some g
        → 0 < k
        → get_state (ticks k (command up g)) ≡ ok s
        → StandsAfter k b id s
    stands zero b id up g s running c at h is = absurd (omega arith)
    stands (suc k) b id up g s running c at h is =
        let (b', e, (_, _, at')) = loops_commanded k b id up g running c at in
        (b', e, (ticks (suc k) (command up g), at', is))

    -- Where `powf` squares the floats from 0 to 1 to such floats, and a running board has one
    -- message to read, which asks for a state of a gate that there is: with no further bytes, the
    -- gate is on its way to that state after each call of `loop` until, within 101 calls, it is
    -- there.
    pub loops-StandsAfter :
        (b : Board L) (id : ℕ) (up : Bool)
        → IsRunning L b
        → Commands b id up
        → (j : ℕ) × (0 < j)
          × (j ≤ most_ticks)
          × ((i : ℕ) → 0 < i → i < j → StandsAfter i b id (under_way up))
          × StandsAfter j b id (end_state up)
    loops-StandsAfter b id up running c =
        let (g, at) = nth-lt id b.gates (rw running.has.seven c.there) in
        let (j, some_calls, few, before, at_end, _) =
          command-Arrives up g (All-nth IsSound id b.gates running.has.sound at) in
        (
          j,
          some_calls,
          few,
          λ i h k. stands i b id up g (under_way up) running c at h (before i k),
          stands j b id up g (end_state up) running c at some_calls at_end,
        )
