-- ===== src/Firmware/Sketch/Loop.antt =====
-- src/arduino_program/gate_control/gate_control.ino: `update_gates`, `setup` and `loop`, and the
-- runs of the board.
use gate_control.Base.{
  ℕ, ◌*◌, ◌/◌, suc, Bool, true, false, List, [], ◌∷◌, ◌++◌, Option, none, some, length, nth, modify,
  ltb, ◌==◌, if◌then◌else◌, ◌≡◌,
}
use gate_control.Base.Int.{pos, negsuc, minus}
use gate_control.Base.Text.{Str}
use gate_control.Base.Outcome.{Outcome, ok, undefined, ◌>>=◌}
use gate_control.Firmware.Float.{Float, rounded, one_units, two_float}
use gate_control.Firmware.Gate.{Gate, new_gate, tick, finished_moving}
use gate_control.Firmware.Library.{Library}
use gate_control.Firmware.Sketch.{Board, led_pin, gate_pins, pin_or, send_gate_state}
use gate_control.Firmware.Sketch.Messages.{handle_message}

-- The product with a small whole number.
abbrev pub scaled : ℕ → Float → Float
scaled k (pos n) = rounded (pos (k * n))
scaled k (negsuc n) = rounded (minus (k * suc n))

-- `static_cast<unsigned char>(floorf(x))`, which has no value out of the range.
abbrev pub floor_byte : Float → Outcome ℕ
floor_byte (pos n) = if ltb (n / one_units) 256 then ok (n / one_units) else undefined
floor_byte (negsuc n) = undefined

abbrev pub indices : List ℕ
indices = 0 ∷ 1 ∷ 2 ∷ 3 ∷ 4 ∷ 5 ∷ 6 ∷ []

module _ (L : Library) where
  unfoldable pub brightness : Float → Outcome ℕ
  brightness state = floor_byte (scaled 255 (L.powf state two_float))

  abbrev pub analog_write : ℕ → ℕ → Board L → Board L
  analog_write pin value b = record b { analog_writes = b.analog_writes ++ (pin, value) ∷ [] }

  -- The pin of a gate that moved shows its state.
  abbrev pub show : Bool → ℕ → Gate → Board L → Outcome (Board L)
  show false i g b = ok b
  show true i g b =
      brightness g.state >>= λ value. ok (analog_write (pin_or 0 (nth i gate_pins)) value b)

  abbrev pub report : Bool → ℕ → Board L → Outcome (Board L)
  report false i b = ok b
  report true i b = send_gate_state L i b

  abbrev pub set_gate : ℕ → Gate → Board L → Board L
  set_gate i g b = record b { gates = modify i (λ _. g) b.gates }

  abbrev pub update_one : ℕ → Option Gate → Board L → Outcome (Board L)
  update_one i none b = undefined
  update_one i (some gate) b =
      let (changed, g) = tick gate in
      show changed i g (set_gate i g b) >>= λ b'. report (finished_moving g) i b'

  unfoldable pub update_gate : ℕ → Board L → Outcome (Board L)
  unfolding brightness
  update_gate i b = update_one i (nth i b.gates) b

  unfoldable pub update_each : List ℕ → Board L → Outcome (Board L)
  unfolding update_gate
  update_each [] b = ok b
  update_each (i ∷ is) b = let rest = update_each is in update_gate i b >>= λ b'. rest b'

  unfoldable pub update_gates : Board L → Outcome (Board L)
  unfolding update_each
  update_gates b = update_each indices b

  -- Before `setup`
  abbrev pub powered_on : L.Value → Board L
  powered_on doc = record {
    gates = new_gate ∷ new_gate ∷ new_gate ∷ new_gate ∷ new_gate ∷ new_gate ∷ new_gate ∷ [];
    doc = doc;
    received = [];
    written = [];
    analog_writes = [];
    outputs = [];
  }

  unfoldable pub setup : Board L → Board L
  setup b = record b { outputs = b.outputs ++ led_pin ∷ gate_pins }

  abbrev pub take_document : L.Value × Str → Board L → Board L
  take_document d b = record b { doc = d.0; received = d.1 }

  abbrev pub read_message : Board L → Outcome (Board L)
  read_message b =
      if length b.received == 0
      then ok b
      else handle_message L (take_document (L.deserialize b.received) b)

  unfoldable pub loop : Board L → Outcome (Board L)
  loop b = read_message b >>= λ b'. update_gates b'

  -- The port receives bytes at any time; each call of `loop` is one step.
  pub data Step : Board L → Board L → Type 0 where
    arrive :
        {b b' : Board L} (bytes : Str)
        → b' ≡ record b { received = b.received ++ bytes }
        → Step b b'
    looped : {b b' : Board L} → loop b ≡ ok b' → Step b b'

  pub data Reaches : Board L → Board L → Type 0 where
    start : {b : Board L} → Reaches b b
    next : {a b c : Board L} → Reaches a b → Step b c → Reaches a c
