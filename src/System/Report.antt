-- ===== src/System/Report.antt =====
-- What the board says of its gates reaches the clients.
use gate_control.Base.{ℕ, List, [], ◌∷◌}
use gate_control.Base.Text.{codes}
use gate_control.Json.{JsonLib}
use gate_control.Message.{query_state_result, JsonMessage}
use gate_control.Messenger.{Messenger}
use gate_control.Firmware.Gate.{GateState}
use gate_control.Firmware.Library.{Library}
use gate_control.Firmware.Sketch.{gate_entry, state_str}
use gate_control.System.{BackWire}

module _ (J : JsonLib) (L : Library) (wire : BackWire J L) where
  open wire use {told}

  -- The gates of an answer, on the board and at the server.
  abbrev pub board_entries : List (ℕ × GateState) → List L.Value
  board_entries [] = []
  board_entries ((id, s) ∷ gates) = gate_entry L id s ∷ board_entries gates

  abbrev pub server_entries : List (ℕ × GateState) → List J.Value
  server_entries [] = []
  server_entries ((id, s) ∷ gates) =
      J.of_object ((codes "id", J.of_number id) ∷ (codes "state", J.of_string (state_str s)) ∷ [])
      ∷ server_entries gates

  abbrev pub report_message : List (ℕ × GateState) → JsonMessage J
  report_message gates = record {
    type = query_state_result;
    payload = J.of_array (server_entries gates);
  }

  -- The value that an answer is the text of.
  abbrev answer_of : List (ℕ × GateState) → L.Value
  answer_of gates = L.of_object (
      (codes "type", L.of_string (codes "query_state_result"))
      ∷ (codes "payload", L.of_array (board_entries gates))
      ∷ [])
