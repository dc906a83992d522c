-- ===== src/Firmware/Sketch/Effects.antt =====
-- What ticks of the gates do to a board: its gates, what it says of them, and what it writes to
-- their pins.
use gate_control.Base.{
  ℕ, suc, ◌≤◌, true, List, [], ◌∷◌, ◌++◌, Option, none, some, nth, ◌==◌, if◌then◌else◌, ◌≡◌, All,
  apply_to, any,
}
use gate_control.Base.Text.{Str}
use gate_control.Base.Outcome.{Outcome, ok}
use gate_control.Firmware.Gate.{GateState, Gate, get_state, tick, finished_moving}
use gate_control.Firmware.Gate.Travel.{ticks}
use gate_control.Firmware.Library.{Library}
use gate_control.Firmware.Sketch.{gate_entry, result_message, gate_pins, Board, pin_or}
use gate_control.Firmware.Sketch.Answers.{HasGates}
use gate_control.Firmware.Sketch.Loop.{brightness}

-- A write to the pin of a gate, of a value that fits.
abbrev pub IsWrite : ℕ × ℕ → Type 0
IsWrite (pin, value) = (any (◌==◌ pin) gate_pins ≡ true) × (value ≤ 255)

abbrev pub count : ℕ → List ℕ → ℕ
count j [] = 0
count j (i ∷ is) = if j == i then suc (count j is) else count j is

-- What the gates of some numbers give, one after the other.
abbrev pub collect {ℓ} : {A : Type ℓ} → (ℕ → Option Gate → List A) → List ℕ → List Gate → List A
collect f [] gates = []
collect f (i ∷ is) gates = f i (nth i gates) ++ collect f is gates

module _ (L : Library) where
  abbrev pub text_of : ℕ → Outcome GateState → Str
  text_of i (ok s) = result_message L (gate_entry L i s ∷ [])
  text_of i _ = []

  -- What is said of a gate that ticks: its state, if it has then just finished.
  abbrev pub report_of : ℕ → Option Gate → Str
  report_of i none = []
  report_of i (some g) = if finished_moving (tick g).1 then text_of i (get_state (tick g).1) else []

  abbrev pub write_of : ℕ → Outcome ℕ → List (ℕ × ℕ)
  write_of i (ok v) = (pin_or 0 (nth i gate_pins), v) ∷ []
  write_of i _ = []

  -- What is written to the pin of a gate that ticks: its new position, if it moved.
  abbrev pub shown_of : ℕ → Option Gate → List (ℕ × ℕ)
  shown_of i none = []
  shown_of i (some g) = if (tick g).0 then write_of i (brightness L (tick g).1.state) else []

  pub record IsRunning (b : Board L) : Type 0 where
    pub has : HasGates b.gates
    pub writes : All IsWrite b.analog_writes

  -- A step that only writes.
  abbrev pub Keeps : Board L → Board L → Type 0
  Keeps b b' =
      (b'.gates ≡ b.gates)
      × (b'.doc ≡ b.doc)
      × (b'.received ≡ b.received)
      × (All IsWrite b.analog_writes → All IsWrite b'.analog_writes)

  -- The gates of some numbers have ticked.
  pub record Updates (is : List ℕ) (b b' : Board L) : Type 0 where
    pub running : IsRunning b'
    pub same_doc : b'.doc ≡ b.doc
    pub same_received : b'.received ≡ b.received
    pub each : (j : ℕ) → nth j b'.gates ≡ apply_to (ticks (count j is)) (nth j b.gates)
    pub reported : b'.written ≡ b.written ++ collect report_of is b.gates
    pub shown : b'.analog_writes ≡ b.analog_writes ++ collect shown_of is b.gates
