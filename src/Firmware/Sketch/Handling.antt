-- ===== src/Firmware/Sketch/Handling.antt =====
-- What `handle_message` does with each document.
use gate_control.Base.{
  ℕ, ◌≤◌, ◌<◌, Bool, true, false, List, [], ◌∷◌, ◌++◌, Option, none, some, length, nth, modify, leb,
  ltb, ◌≡◌, refl, ap, ◌∙◌, inl, inr, arith, nth-lt, nth-ge, nth-modify, ==_refl, Bool-cases,
  Option-cases,
}
use gate_control.Base.Text.{Str, codes, str_eq}
use gate_control.Base.Text.Laws.{str_eq→eq}
use gate_control.Base.Outcome.{Outcome, ok, undefined}
use gate_control.Firmware.Gate.{GateState, raising, lowering, Gate, raise, lower, get_state}
use gate_control.Firmware.Library.{Library}
use gate_control.Firmware.Sketch.{
  gate_pins_size, Board, send_error, gate_entry, id_entries, result_message, send_ids,
  send_gate_states,
}
use gate_control.Firmware.Sketch.Messages.{
  command, move_gate, change_state, query_state, handle_typed, handle_message,
}
use gate_control.Firmware.Sketch.Answers.{
  HasGates, send_error_undefined, AnswersAll, entries-AnswersAll,
}

-- The state of a gate that was told to move.
abbrev pub under_way : Bool → GateState
under_way true = raising
under_way false = lowering

module _ (L : Library) where
  abbrev pub HasType : L.Value → Str → Type 0
  HasType doc type = L.as_string (L.member doc (codes "type")) ≡ some type

  abbrev pub payload_of : L.Value → L.Value
  payload_of doc = L.member doc (codes "payload")

  abbrev pub id_of : L.Value → Option ℕ
  id_of doc = L.as_unsigned (L.member (payload_of doc) (codes "id"))

  abbrev pub state_of : L.Value → Option Bool
  state_of doc = L.as_bool (L.member (payload_of doc) (codes "state"))

  -- The documents that are no message, or one for a gate that there is not.
  pub data Faulty (doc : L.Value) : Type 0 where
    untyped : L.as_string (L.member doc (codes "type")) ≡ none → Faulty doc
    unknown :
        {type : Str}
        → HasType doc type
        → str_eq type (codes "change_state") ≡ false
        → str_eq type (codes "query_state") ≡ false
        → Faulty doc
    no_object :
        HasType doc (codes "change_state") → L.is_object (payload_of doc) ≡ false → Faulty doc
    no_id : HasType doc (codes "change_state") → id_of doc ≡ none → Faulty doc
    no_state : HasType doc (codes "change_state") → state_of doc ≡ none → Faulty doc
    far_id :
        {id : ℕ}
        → HasType doc (codes "change_state")
        → id_of doc ≡ some id
        → gate_pins_size ≤ id
        → Faulty doc
    no_array : HasType doc (codes "query_state") → L.as_array (payload_of doc) ≡ none → Faulty doc

  -- A board, and how a message ends on it.
  pub data Handled (b : Board L) : Outcome (Board L) → Type 0 where
    skipped : L.is_null b.doc ≡ true → Handled b (ok b)
    commanded :
        {id : ℕ} {up : Bool} {gates : List Gate}
        → L.is_null b.doc ≡ false
        → HasType b.doc (codes "change_state")
        → L.is_object (payload_of b.doc) ≡ true
        → id_of b.doc ≡ some id
        → state_of b.doc ≡ some up
        → id < gate_pins_size
        → gates ≡ modify id (command up) b.gates
        → Handled b (
            ok (record b {
              gates = gates;
              written = b.written ++ result_message L (gate_entry L id (under_way up) ∷ []);
            }))
    queried :
        {query es : List L.Value}
        → L.is_null b.doc ≡ false
        → HasType b.doc (codes "query_state")
        → L.as_array (payload_of b.doc) ≡ some query
        → AnswersAll L b.gates query es
        → Handled b (ok (record b { written = b.written ++ result_message L es }))
    failed : L.is_null b.doc ≡ false → Faulty b.doc → Handled b undefined

  command-under_way : (up : Bool) (g : Gate) → get_state (command up g) ≡ ok (under_way up)
  unfolding get_state raise lower
  command-under_way true g = refl
  command-under_way false g = refl

  pub moved_entry :
      (id : ℕ) (up : Bool) (gates : List Gate)
      → length gates ≡ gate_pins_size
      → id < gate_pins_size
      → id_entries L (id ∷ []) (modify id (command up) gates)
        ≡ ok (gate_entry L id (under_way up) ∷ [])
  unfolding id_entries
  moved_entry id up gates seven small =
      let (g, at) = nth-lt id gates (rw seven small) in
      let here : leb gate_pins_size id ≡ false = ground arith in
      let now : nth id (modify id (command up) gates) ≡ some (command up g) =
        nth-modify id id (command up) gates ∙ rw (==_refl id, at) refl in
      rw (here, now, command-under_way up g) refl

  module _ (b : Board L) (has : HasGates b.gates) (there : L.is_null b.doc ≡ false) where
    refuse : (payload : Str) → Faulty b.doc → Handled b (send_error L payload b)
    refuse payload faulty = rw (send_error_undefined L payload b) (failed there faulty)

    move-Handled :
        (id : ℕ) (up : Bool)
        → HasType b.doc (codes "change_state")
        → L.is_object (payload_of b.doc) ≡ true
        → id_of b.doc ≡ some id
        → state_of b.doc ≡ some up
        → Handled b (move_gate L id up (nth id b.gates) b)
    unfolding send_ids
    move-Handled id up typed object e_id e_state = elim (Bool-cases (ltb id gate_pins_size)) [
      | inl t ↦
          let small : id < gate_pins_size = ground arith in
          let (g, at) = nth-lt id b.gates (rw has.seven small) in
          rw (at, moved_entry id up b.gates has.seven small)
            (commanded there typed object e_id e_state small refl)
      | inr f ↦
          let far : gate_pins_size ≤ id = ground arith in
          rw (nth-ge id b.gates (rw has.seven far)) (failed there (far_id typed e_id far))
    ]

    change-Handled :
        HasType b.doc (codes "change_state") → Handled b (change_state L (payload_of b.doc) b)
    unfolding change_state
    change-Handled typed = elim (Bool-cases (L.is_object (payload_of b.doc))) [
      | inr f ↦ rw f (refuse (codes "malformed_change_state_payload") (no_object typed f))
      | inl t ↦ elim (Option-cases (id_of b.doc)) [
        | inl e ↦ rw (t, e) (refuse (codes "malformed_change_state_payload") (no_id typed e))
        | inr (id, e) ↦ elim (Option-cases (state_of b.doc)) [
          | inl e' ↦
              rw (t, e, e') (refuse (codes "malformed_change_state_payload") (no_state typed e'))
          | inr (up, e') ↦ rw (t, e, e') (move-Handled id up typed t e e')
        ]
      ]
    ]

    query-Handled :
        HasType b.doc (codes "query_state")
        → Handled b (query_state L (L.as_array (payload_of b.doc)) b)
    unfolding query_state send_gate_states
    query-Handled typed = elim (Option-cases (L.as_array (payload_of b.doc))) [
      | inl e ↦ rw e (refuse (codes "malformed_query_state_payload") (no_array typed e))
      | inr (query, e) ↦
          let (es, all_of, answers) = entries-AnswersAll L query b.gates has in
          rw (e, all_of) (queried there typed e answers)
    ]

    typed-Handled : (type : Str) → HasType b.doc type → Handled b (handle_typed L (some type) b)
    typed-Handled type typed = elim (Bool-cases (str_eq type (codes "change_state"))) [
      | inl t ↦ rw t (change-Handled (typed ∙ ap some (str_eq→eq type (codes "change_state") t)))
      | inr f ↦ elim (Bool-cases (str_eq type (codes "query_state"))) [
        | inl t ↦
            rw (f, t) (query-Handled (typed ∙ ap some (str_eq→eq type (codes "query_state") t)))
        | inr f' ↦ rw (f, f') (refuse (codes "unknown") (unknown typed f f'))
      ]
    ]

  -- On a board with seven sound gates, a null document changes nothing; a message for a gate that
  -- there is turns it to the direction that is asked for, no other gate, and answers that it is on
  -- its way; a query answers its numbers that have a gate, in their order, each with the state of
  -- the gate; and with any other document the behaviour is undefined.
  pub handle_message-Handled : (b : Board L) → HasGates b.gates → Handled b (handle_message L b)
  unfolding handle_message
  handle_message-Handled b has = elim (Bool-cases (L.is_null b.doc)) [
    | inl t ↦ rw t (skipped t)
    | inr f ↦ elim (Option-cases (L.as_string (L.member b.doc (codes "type")))) [
      | inl e ↦ rw (f, e) (refuse b has f (codes "malformed_type") (untyped e))
      | inr (type, e) ↦ rw (f, e) (typed-Handled b has f type e)
    ]
  ]
