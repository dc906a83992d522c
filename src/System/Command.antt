-- ===== src/System/Command.antt =====
-- A client's message moves a gate.
use gate_control.Base.{ℕ, ◌<◌, ◌≤◌, Bool, true, [], ◌∷◌, ◌++◌, some, ◌≡◌, refl, ap, ◌∙◌}
use gate_control.Base.Text.{Str, codes, str_eq}
use gate_control.Base.Outcome.{ok}
use gate_control.Json.{JsonLib, lookup}
use gate_control.AuthTable.Types.{control}
use gate_control.Message.{
  change_state, JsonMessage, type_to_str, message_object, parse_message, dump_message,
}
use gate_control.Messenger.{Messenger, in_flight, send_message, do_write}
use gate_control.Socket.{Session, text_frame, handle_message, on_read}
use gate_control.Firmware.Library.{Library, SquaresUnit}
use gate_control.Firmware.Sketch.{gate_pins_size, Board}
use gate_control.Firmware.Sketch.Handling.{under_way}
use gate_control.Firmware.Sketch.Effects.{IsRunning}
use gate_control.Firmware.Sketch.Journey.{Commands, StandsAfter, end_state, loops-StandsAfter}
use gate_control.Firmware.Gate.Arrival.{most_ticks}
use gate_control.System.{Wire}

module _ (J : JsonLib) (L : Library) (wire : Wire J L) where
  open wire use {seen}

  -- A payload in which the board finds a gate that there is, and a state.
  pub record IsCommand (payload : J.Value) (id : ℕ) (up : Bool) : Type 0 where
    pub object : L.is_object (seen payload) ≡ true
    pub for_gate : L.as_unsigned (L.member (seen payload) (codes "id")) ≡ some id
    pub to_state : L.as_bool (L.member (seen payload) (codes "state")) ≡ some up
    pub there : id < gate_pins_size

  abbrev pub command_message : J.Value → JsonMessage J
  command_message payload = record { type = change_state; payload = payload }

  -- The board, when the text of the message has arrived.
  abbrev pub arrived : Str → Board L → Board L
  arrived text b = record b { received = b.received ++ text }

  seen_of :
      (k : Str) (payload v : J.Value)
      → lookup k
          ((codes "type", J.of_string (type_to_str change_state)) ∷ (codes "payload", payload) ∷ [])
        ≡ some v
      → L.member (seen (message_object J change_state payload)) k ≡ seen v
  seen_of k payload v h = wire.seen_member _ k v h

  text-Commands :
      (payload : J.Value) (text : Str) (id : ℕ) (up : Bool) (b : Board L)
      → IsCommand payload id up
      → dump_message J (command_message payload) ≡ ok text
      → b.received ≡ []
      → Commands L (arrived text b) id up
  unfolding dump_message
  text-Commands payload text id up b command dumped quiet =
      let object = message_object J change_state payload in
      let type_there : L.member (seen object) (codes "type")
          ≡ seen (J.of_string (type_to_str change_state)) =
        seen_of (codes "type") payload (J.of_string (type_to_str change_state))
          (unfold lookup str_eq in refl) in
      let payload_there : L.member (seen object) (codes "payload") ≡ seen payload =
        seen_of (codes "payload") payload payload (unfold lookup str_eq in refl) in
      record {
        doc = seen object;
        pending = rw quiet (wire.dump_not_empty object text dumped);
        read = rw quiet (wire.deserialize_dump object text dumped);
        not_null = wire.seen_object _;
        typed = rw type_there (wire.seen_type change_state ∙ ap some (unfold type_to_str in refl));
        object = rw payload_there command.object;
        for_gate =
            ap (λ x. L.as_unsigned (L.member x (codes "id"))) payload_there ∙ command.for_gate;
        to_state =
            ap (λ x. L.as_bool (L.member x (codes "state"))) payload_there ∙ command.to_state;
        there = command.there;
      }

  -- The text of a client's session that may control, with a messenger that is idle.
  pub record IsTold (s : Session) (m : Messenger J) (message text : Str) (payload : J.Value)
      : Type 0 where
    pub may_control : s.permissions ≡ control
    pub parsed : parse_message J message ≡ ok (command_message payload)
    pub dumped : dump_message J (command_message payload) ≡ ok text
    pub idle : m.outgoing_message_queue ≡ []

  -- Where the board's library reads what the server's library writes, and `powf` squares the floats
  -- from 0 to 1 to such floats: a client with control sends a message that asks for a state of a
  -- gate that there is, the messenger has nothing else to write, and the board runs and has nothing
  -- to read. Then the session's handler hands the message on, the messenger's next write is its
  -- text, and once the text has arrived the gate is on its way after each call of `loop` until,
  -- within 101 calls, it has that state.
  pub on_read-StandsAfter :
      (law : SquaresUnit L.powf) (s : Session) (m : Messenger J) (message text : Str)
      (payload : J.Value) (id : ℕ) (up : Bool) (b : Board L)
      → IsTold s m message text payload
      → IsCommand payload id up
      → IsRunning L b
      → b.received ≡ []
      → (s' : Session) × (m' : Messenger J) × (m'' : Messenger J) × (on_read J
            (text_frame message)
            s
            m
          ≡ ok (s', m'))
        × (do_write J m' ≡ ok m'')
        × (m''.written ≡ m.written ++ text ∷ [])
        × ((j : ℕ) × (0 < j)
            × (j ≤ most_ticks)
            × ((i : ℕ) → 0 < i → i < j → StandsAfter L i (arrived text b) id (under_way up))
            × StandsAfter L j (arrived text b) id (end_state up))
  unfolding on_read handle_message send_message do_write
  on_read-StandsAfter law s m message text payload id up b is_told command running quiet =
      let m' = send_message J (command_message payload) m in
      (
        record s { is_reading = true },
        m',
        record m' {
          outgoing_message_buffer = text;
          outgoing_message_queue = [];
          write_loop = in_flight;
          written = m.written ++ text ∷ [];
        },
        rw (is_told.may_control, is_told.parsed) refl,
        rw (is_told.idle, is_told.dumped) refl,
        refl,
        loops-StandsAfter L law (arrived text b) id up
            (record { has = running.has; writes = running.writes })
            (text-Commands payload text id up b command is_told.dumped quiet),
      )
