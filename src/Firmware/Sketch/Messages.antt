-- ===== src/Firmware/Sketch/Messages.antt =====
-- src/arduino_program/gate_control/gate_control.ino: `handle_message`.
use gate_control.Base.{
  ℕ, Bool, true, false, not, List, Option, none, some, nth, modify, if◌then◌else◌,
}
use gate_control.Base.Text.{Str, codes, str_eq}
use gate_control.Base.Outcome.{Outcome, ok, undefined}
use gate_control.Firmware.Gate.{Gate, raise, lower}
use gate_control.Firmware.Library.{Library}
use gate_control.Firmware.Sketch.{Board, send_error, send_gate_states, send_gate_state}

-- `raise` or `lower`, by the state that is asked for.
abbrev pub command : Bool → Gate → Gate
command true g = raise g
command false g = lower g

module _ (L : Library) where
  -- `gates[id]` is not checked: out of the array, the call on it writes to what stands there.
  abbrev pub move_gate : ℕ → Bool → Option Gate → Board L → Outcome (Board L)
  move_gate id new_state none b = undefined
  move_gate id new_state (some selected_gate) b =
      send_gate_state L id (record b { gates = modify id (command new_state) b.gates })

  abbrev pub move_if_typed : Option ℕ → Option Bool → Board L → Outcome (Board L)
  move_if_typed (some id) (some new_state) b = move_gate id new_state (nth id b.gates) b
  move_if_typed (some id) none b = send_error L (codes "malformed_change_state_payload") b
  move_if_typed none state b = send_error L (codes "malformed_change_state_payload") b

  unfoldable pub change_state : L.Value → Board L → Outcome (Board L)
  change_state payload b =
      if not (L.is_object payload)
      then send_error L (codes "malformed_change_state_payload") b
      else move_if_typed (L.as_unsigned (L.member payload (codes "id")))
          (L.as_bool (L.member payload (codes "state"))) b

  unfoldable pub query_state : Option (List L.Value) → Board L → Outcome (Board L)
  query_state none b = send_error L (codes "malformed_query_state_payload") b
  query_state (some query) b = send_gate_states L query b

  abbrev pub handle_typed : Option Str → Board L → Outcome (Board L)
  handle_typed none b = send_error L (codes "malformed_type") b
  handle_typed (some type) b =
      if str_eq type (codes "change_state")
      then change_state (L.member b.doc (codes "payload")) b
      else if str_eq type (codes "query_state")
      then query_state (L.as_array (L.member b.doc (codes "payload"))) b
      else send_error L (codes "unknown") b

  unfoldable pub handle_message : Board L → Outcome (Board L)
  unfolding change_state query_state
  handle_message b =
      if L.is_null b.doc then ok b else handle_typed (L.as_string (L.member b.doc (codes "type"))) b
