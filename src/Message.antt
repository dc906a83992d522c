-- ===== src/Message.antt =====
-- src/json_message.hpp and src/json_message.cpp: the messages between the clients and the Arduino.
pub mod RoundTrip
use gate_control.Base.{
  ℕ, Bool, true, false, not, ◌&&◌, ◌||◌, List, [], ◌∷◌, Option, none, some, if◌then◌else◌,
}
use gate_control.Base.Text.{Str, codes, str_eq}
use gate_control.Base.Outcome.{Outcome, ok, raised, undefined, ◌>>=◌, or_raise}
use gate_control.Json.{JsonLib}

pub data MessageType : Type 0 where
  query_state query_state_result change_state availability text : MessageType

unfoldable pub type_to_str : MessageType → Str
type_to_str query_state = codes "query_state"
type_to_str query_state_result = codes "query_state_result"
type_to_str change_state = codes "change_state"
type_to_str availability = codes "availability"
type_to_str text = codes "text"

-- After the last test the function ends without a `return`.
unfoldable pub str_to_type : Str → Outcome MessageType
str_to_type str =
    if str_eq str (codes "query_state")
    then ok query_state
    else if str_eq str (codes "query_state_result")
    then ok query_state_result
    else if str_eq str (codes "change_state")
    then ok change_state
    else if str_eq str (codes "availability")
    then ok availability
    else if str_eq str (codes "text")
    then ok text
    else undefined

module _ (J : JsonLib) where
  pub record JsonMessage : Type 0 where
    pub type : MessageType
    pub payload : J.Value

  -- The object that `create_message` and `dump_message` write.
  abbrev pub message_object : MessageType → J.Value → J.Value
  message_object type payload =
      J.of_object ((codes "type", J.of_string (type_to_str type)) ∷ (codes "payload", payload) ∷ [])

  unfoldable pub create_message : MessageType → J.Value → Outcome Str
  create_message type payload = J.dump (message_object type payload)

  unfoldable pub dump_message : JsonMessage → Outcome Str
  dump_message m = J.dump (message_object m.type m.payload)

  abbrev pub malformed : J.Value → Bool
  malformed v =
      not (J.is_object v)
      || not (J.is_string (J.member v (codes "type")))
      || not (J.is_primitive (J.member v (codes "payload")))
        && not (J.is_structured (J.member v (codes "payload")))

  unfoldable pub message_of : J.Value → Outcome JsonMessage
  message_of v = if malformed v then raised else do
    name ← J.as_string (J.member v (codes "type"))
    type ← str_to_type name
    ok (record { type = type; payload = J.member v (codes "payload") })

  unfoldable pub parse_message : Str → Outcome JsonMessage
  parse_message str = or_raise (J.parse str) >>= message_of
