-- ===== src/Firmware/Sketch.antt =====
-- src/arduino_program/gate_control/gate_control.ino, behind the class `Gate`: the messages and the
-- loop. What the serial port receives and sends, and what is written to the pins, are fields of the
-- state; the setting of the port and of its time limit are not.
pub mod Messages
pub mod Loop
pub mod Answers
pub mod Handling
pub mod Effects
pub mod Updating
pub mod Ticking
pub mod Running
pub mod Journey
pub mod Announcing
use gate_control.Base.{
  ℕ, ◌+◌, ◌*◌, ◌/◌, suc, zero, Bool, true, false, not, List, [], ◌∷◌, ◌++◌, Option, none, some,
  length, nth, modify, leb, ltb, ◌==◌, if◌then◌else◌,
}
use gate_control.Base.Int.{pos, negsuc, minus}
use gate_control.Base.Text.{Str, codes, str_eq}
use gate_control.Base.Outcome.{Outcome, ok, undefined, ◌>>=◌}
use gate_control.Firmware.Float.{Float, round, rounded, one_units}
use gate_control.Firmware.Gate.{
  GateState, raised, raising, lowered, lowering, Gate, new_gate, tick, raise, lower, get_state,
  finished_moving,
}
use gate_control.Firmware.Library.{Library}

abbrev pub led_pin : ℕ
led_pin = 13

abbrev pub gate_pins : List ℕ
gate_pins = 3 ∷ 5 ∷ 6 ∷ 9 ∷ 10 ∷ 11 ∷ 13 ∷ []

abbrev pub gate_pins_size : ℕ
gate_pins_size = 7

abbrev pub pin_or : ℕ → Option ℕ → ℕ
pin_or d none = d
pin_or d (some pin) = pin

unfoldable pub index_to_pin : ℕ → ℕ
index_to_pin id = if leb gate_pins_size id then gate_pins_size + 1 else pin_or 0 (nth id gate_pins)

abbrev pub state_str : GateState → Str
state_str raised = codes "raised"
state_str raising = codes "raising"
state_str lowered = codes "lowered"
state_str lowering = codes "lowering"

-- `strcat` into a buffer of some size. It ends what it writes with a NUL, which needs room too.
unfoldable pub strcat : ℕ → Str → Str → Outcome Str
strcat size dest src =
    if leb (length dest + length src + 1) size then ok (dest ++ src) else undefined

abbrev pub error_message_start : Str
error_message_start = codes "{\"type\": \"error\", \"payload\": \""

abbrev pub error_message_end : Str
error_message_end = codes "\"}"

-- The text of `send_error`, put together in a buffer.
unfoldable pub error_message : Str → Outcome Str
unfolding strcat
error_message payload =
    let size = length error_message_start + length payload + length error_message_end in
    do
      s ← strcat size [] error_message_start
      s' ← strcat size s payload
      strcat size s' error_message_end

module _ (L : Library) where
  pub record Board : Type 0 where
    pub gates : List Gate
    pub doc : L.Value
    -- What the serial port has received and not yet given, and what was sent on it.
    pub received : Str
    pub written : Str
    -- The calls of `analogWrite`, a pin and a value each.
    pub analog_writes : List (ℕ × ℕ)
    -- The pins whose mode was set to output.
    pub outputs : List ℕ

  abbrev pub write : Str → Board → Board
  write text b = record b { written = b.written ++ text }

  unfoldable pub send_error : Str → Board → Outcome Board
  unfolding error_message
  send_error payload b = error_message payload >>= λ text. ok (write text b)

  abbrev pub gate_entry : ℕ → GateState → L.Value
  gate_entry id state =
      L.of_object
        ((codes "id", L.of_unsigned id) ∷ (codes "state", L.of_string (state_str state)) ∷ [])

  abbrev pub entry_of : ℕ → Option Gate → Outcome (List L.Value)
  entry_of id none = undefined
  entry_of id (some g) = get_state g >>= λ state. ok (gate_entry id state ∷ [])

  -- What a number adds to the answer: nothing where no gate has it.
  abbrev pub entry : ℕ → List Gate → Outcome (List L.Value)
  entry id gates = if leb gate_pins_size id then ok [] else entry_of id (nth id gates)

  abbrev pub item_entry : Option ℕ → List Gate → Outcome (List L.Value)
  item_entry none gates = ok []
  item_entry (some id) gates = entry id gates

  unfoldable pub id_entries : List ℕ → List Gate → Outcome (List L.Value)
  id_entries [] gates = ok []
  id_entries (id ∷ ids) gates = entry id gates >>= λ e. id_entries ids gates >>= λ es. ok (e ++ es)

  unfoldable pub entries : List L.Value → List Gate → Outcome (List L.Value)
  entries [] gates = ok []
  entries (el ∷ els) gates =
      item_entry (L.as_unsigned el) gates >>= λ e. entries els gates >>= λ es. ok (e ++ es)

  abbrev pub result_message : List L.Value → Str
  result_message es = L.serialize (
      L.of_object (
        (codes "type", L.of_string (codes "query_state_result"))
        ∷ (codes "payload", L.of_array es)
        ∷ []))

  -- `send_gate_states` of an array of numbers, and of a JSON array.
  unfoldable pub send_ids : List ℕ → Board → Outcome Board
  unfolding id_entries
  send_ids ids b = id_entries ids b.gates >>= λ es. ok (write (result_message es) b)

  unfoldable pub send_gate_states : List L.Value → Board → Outcome Board
  unfolding entries
  send_gate_states ids b = entries ids b.gates >>= λ es. ok (write (result_message es) b)

  abbrev pub send_gate_state : ℕ → Board → Outcome Board
  send_gate_state id b = send_ids (id ∷ []) b
