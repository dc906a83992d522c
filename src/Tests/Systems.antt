-- ===== src/Tests/Systems.antt =====
-- The server and the board together.
use gate_control.Base.{ℕ, ◌<◌, ◌≤◌, true, List, [], ◌∷◌, ◌≡◌, refl, arith}
use gate_control.Base.Text.{Str, codes, str_eq}
use gate_control.Base.Outcome.{Outcome, ok}
use gate_control.AuthTable.Types.{control}
use gate_control.Message.{
  change_state, create_message, parse_message, dump_message, type_to_str, str_to_type, message_of,
}
use gate_control.Messenger.{Messenger, idle, polling, do_write, on_read as port_on_read}
use gate_control.Socket.{Session, new_session, text_frame, on_read}
use gate_control.Bridge.{World}
use gate_control.Firmware.Gate.{GateState, raised, lowering}
use gate_control.Firmware.Gate.Arrival.{most_ticks}
use gate_control.Firmware.Sketch.{Board}
use gate_control.Firmware.Sketch.Handling.{under_way}
use gate_control.Firmware.Sketch.Loop.{powered_on, setup}
use gate_control.Firmware.Sketch.Effects.{IsRunning}
use gate_control.Firmware.Sketch.Running.{setup-IsRunning}
use gate_control.Firmware.Sketch.Journey.{StandsAfter, end_state}
use gate_control.System.Command.{IsCommand, IsTold, arrived, on_read-StandsAfter}
use gate_control.System.Report.{report_message}
use gate_control.Tests.ToyJson.{object, field, no_fields, number, nothing, toy}
use gate_control.Tests.ToyJson.Codec.{wire_json, wire_board, wire, back_wire, wire_squares}

abbrev written : Outcome Str → Str
written (ok s) = s
written _ = []

-- What the client writes, which is what the messenger writes too.
unfoldable raise_third : wire_json.Value
unfolding wire_json toy
raise_third = object (field (codes "id") (number 2) (field (codes "state") (number 1) no_fields))

unfoldable command_text : Str
unfolding create_message raise_third
command_text = written (create_message wire_json change_state raise_third)

abbrev controller : Session
controller = record new_session { permissions = control; is_reading = true }

abbrev quiet_port : Messenger wire_json
quiet_port = record (idle wire_json) { is_reading = true; write_loop = polling }

unfoldable first_board : Board wire_board
unfolding wire_board wire_json toy
first_board = setup wire_board (powered_on wire_board nothing)

first-IsRunning : IsRunning wire_board first_board
unfolding first_board
first-IsRunning = setup-IsRunning wire_board nothing

first_quiet : first_board.received ≡ []
unfolding first_board setup
first_quiet = refl

raise_third-IsCommand : IsCommand wire_json wire_board wire raise_third 2 true
unfolding wire wire_board wire_json toy raise_third str_eq
raise_third-IsCommand = record {
  object = refl;
  for_gate = refl;
  to_state = refl;
  there = omega arith;
}

third-IsTold :
    IsTold wire_json wire_board wire controller quiet_port command_text command_text raise_third
unfolding command_text create_message dump_message parse_message message_of str_to_type type_to_str
    wire_json toy raise_third str_eq
third-IsTold = record { may_control = refl; parsed = refl; dumped = refl; idle = refl }

on_read-StandsAfter_example :
    (s' : Session) × (m' : Messenger wire_json) × (m'' : Messenger wire_json) × (on_read wire_json
        (text_frame command_text)
        controller
        quiet_port
      ≡ ok (s', m'))
    × (do_write wire_json m' ≡ ok m'')
    × (m''.written ≡ command_text ∷ [])
    × ((j : ℕ) × (0 < j)
        × (j ≤ most_ticks)
        × ((i : ℕ)
            → 0 < i
            → i < j
            → StandsAfter wire_board i
                (arrived wire_json wire_board wire command_text first_board)
                2
                (under_way true))
        × StandsAfter wire_board j
            (arrived wire_json wire_board wire command_text first_board)
            2
            (end_state true))
on_read-StandsAfter_example =
    on_read-StandsAfter wire_json wire_board wire wire_squares controller quiet_port command_text
      command_text raise_third 2 true first_board third-IsTold raise_third-IsCommand first-IsRunning
      first_quiet

-- One client who listens.
abbrev one_client : World wire_json
one_client = record {
  store = controller ∷ [];
  sessions = 0 ∷ [];
  messenger = quiet_port;
  is_updating = true;
}

abbrev two_gates : List (ℕ × GateState)
two_gates = (2, raised) ∷ (4, lowering) ∷ []

unfoldable report_text : Str
unfolding dump_message
report_text =
    written (dump_message wire_json (report_message wire_json wire_board back_wire two_gates))
