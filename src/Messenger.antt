-- ===== src/Messenger.antt =====
-- src/arduino_messenger.hpp and src/arduino_messenger.cpp: the two queues of messages between the
-- server and the Arduino, and the loops that read from and write to the serial port.
pub mod Reading
pub mod Effects
use gate_control.Base.{
  ℕ, Bool, true, false, List, [], ◌∷◌, ◌++◌, Option, none, some, length, drop, ◌==◌, if◌then◌else◌,
}
use gate_control.Base.Text.{Str}
use gate_control.Base.Outcome.{Outcome, ok, raised, undefined, ◌>>=◌}
use gate_control.Json.{JsonLib}
use gate_control.Message.{JsonMessage, dump_message, parse_message}

-- Where a loop of writes stands: it posts itself again while there is nothing to write, waits for
-- the end of a write, or has ended.
pub data Loop : Type 0 where
  polling in_flight stopped : Loop

module _ (J : JsonLib) where
  pub record Messenger : Type 0 where
    pub buffer : Str
    pub incoming_message_queue : List (JsonMessage J)
    pub outgoing_message_queue : List (JsonMessage J)
    pub outgoing_message_buffer : Str
    -- Whether a read is pending.
    pub is_reading : Bool
    pub write_loop : Loop
    -- What was handed to the port so far.
    pub written : List Str

  unfoldable pub do_read : Messenger → Messenger
  do_read m = record m { is_reading = true }

  -- A message that was read, or the exception of its parser, which is dropped.
  abbrev pub received : Str → Messenger → Outcome (JsonMessage J) → Outcome Messenger
  received left m (ok jmsg) = ok (
      do_read (record m {
        buffer = left;
        incoming_message_queue = m.incoming_message_queue ++ jmsg ∷ [];
      }))
  received left m raised = ok (do_read (record m { buffer = left }))
  received left m undefined = undefined

  -- The argument is what the port gave; `none` is an error, after which nothing is read again.
  unfoldable pub on_read : Option Str → Messenger → Outcome Messenger
  unfolding do_read
  on_read none m = ok (record m { is_reading = false })
  on_read (some bytes) m =
      if length bytes == 0
      then ok (do_read m)
      else received (drop (length bytes) (m.buffer ++ bytes)) m
          (parse_message J (m.buffer ++ bytes))

  abbrev write_next : List (JsonMessage J) → Messenger → Outcome Messenger
  write_next [] m = ok (record m { write_loop = polling })
  write_next (jmsg ∷ rest) m = dump_message J jmsg >>= λ message. ok (record m {
    outgoing_message_buffer = message;
    outgoing_message_queue = rest;
    write_loop = in_flight;
    written = m.written ++ message ∷ [];
  })

  unfoldable pub do_write : Messenger → Outcome Messenger
  do_write m = write_next m.outgoing_message_queue m

  -- The argument says whether the write failed.
  unfoldable pub on_write : Bool → Messenger → Outcome Messenger
  unfolding do_write
  on_write true m = ok (record m { outgoing_message_buffer = []; write_loop = stopped })
  on_write false m = do_write (record m { outgoing_message_buffer = [] })

  unfoldable pub send_message : JsonMessage J → Messenger → Messenger
  send_message message m = record m {
    outgoing_message_queue = m.outgoing_message_queue ++ message ∷ [];
  }

  abbrev pub idle : Messenger
  idle = record {
    buffer = [];
    incoming_message_queue = [];
    outgoing_message_queue = [];
    outgoing_message_buffer = [];
    is_reading = false;
    write_loop = stopped;
    written = [];
  }

  -- `run`, on a port that was opened.
  unfoldable pub run : Messenger → Outcome Messenger
  unfolding do_read do_write
  run m = do_write (do_read m)
