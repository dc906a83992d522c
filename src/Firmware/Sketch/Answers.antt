-- ===== src/Firmware/Sketch/Answers.antt =====
-- What the answer to a query holds, and that the text of `send_error` does not fit into its buffer.
use gate_control.Base.{
  ℕ, ◌+◌, ◌≤◌, ◌<◌, Bool, true, false, List, [], ◌∷◌, ◌++◌, Option, none, some, length,
  length-append, nth, modify, leb, ◌≡◌, refl, ◌∙◌, inl, inr, arith, All, All-nth, All-modify,
  length-modify, nth-lt, Bool-cases,
}
use gate_control.Base.Text.{Str}
use gate_control.Base.Outcome.{ok, undefined}
use gate_control.Firmware.Gate.{GateState, Gate, get_state}
use gate_control.Firmware.Gate.Position.{IsSound, get_state_defined, raise-IsSound, lower-IsSound}
use gate_control.Firmware.Library.{Library}
use gate_control.Firmware.Sketch.{
  gate_pins_size, strcat, error_message_start, error_message_end, error_message, Board, send_error,
  gate_entry, entry, item_entry, entries,
}
use gate_control.Firmware.Sketch.Messages.{command}

-- The buffer of `send_error` has no room for the last NUL, whatever the text.
error_message_overflows : (payload : Str) → error_message payload ≡ undefined
unfolding error_message strcat
error_message_overflows payload =
    let e = length-append error_message_start payload in
    let size = length error_message_start + length payload + length error_message_end in
    let first : leb (length {A = ℕ} [] + length error_message_start + 1) size ≡ true =
      ground arith in
    let second : leb (length error_message_start + length payload + 1) size ≡ true = ground arith in
    let third : leb (length (error_message_start ++ payload) + length error_message_end + 1) size
        ≡ false =
      ground arith in
    rw (first, second, third) refl

-- The gates of a board that runs.
pub record HasGates (gates : List Gate) : Type 0 where
  pub seven : length gates ≡ gate_pins_size
  pub sound : All IsSound gates

command-IsSound : (up : Bool) (g : Gate) → IsSound g → IsSound (command up g)
command-IsSound true g sound = raise-IsSound g sound
command-IsSound false g sound = lower-IsSound g sound

pub command-HasGates :
    (id : ℕ) (up : Bool) (gates : List Gate)
    → HasGates gates
    → HasGates (modify id (command up) gates)
command-HasGates id up gates has = record {
  seven = length-modify id (command up) gates ∙ has.seven;
  sound = All-modify IsSound id (command up) gates (command-IsSound up) has.sound;
}

module _ (L : Library) where
  pub send_error_undefined : (payload : Str) (b : Board L) → send_error L payload b ≡ undefined
  unfolding send_error
  send_error_undefined payload b = rw (error_message_overflows payload) refl

  -- What an item of a query adds to the answer.
  pub data Answers (gates : List Gate) : Option ℕ → List L.Value → Type 0 where
    no_number : Answers gates none []
    no_gate : {id : ℕ} → gate_pins_size ≤ id → Answers gates (some id) []
    answered :
        {id : ℕ} {g : Gate} {s : GateState}
        → nth id gates ≡ some g
        → get_state g ≡ ok s
        → Answers gates (some id) (gate_entry L id s ∷ [])

  -- The answer to a query: what its items add, in their order.
  pub data AnswersAll (gates : List Gate) : List L.Value → List L.Value → Type 0 where
    nothing : AnswersAll gates [] []
    then_item :
        {el : L.Value} {els es rest : List L.Value}
        → Answers gates (L.as_unsigned el) es
        → AnswersAll gates els rest
        → AnswersAll gates (el ∷ els) (es ++ rest)

  pub entry-Answers :
      (id : ℕ) (gates : List Gate)
      → HasGates gates
      → (es : List L.Value) × (entry L id gates ≡ ok es) × Answers gates (some id) es
  entry-Answers id gates has = elim (Bool-cases (leb gate_pins_size id)) [
    | inl t ↦ ([], rw t refl, no_gate (ground arith))
    | inr f ↦
        let small : id < gate_pins_size = ground arith in
        let (g, at) = nth-lt id gates (rw has.seven small) in
        let (s, is) = get_state_defined g (All-nth IsSound id gates has.sound at) in
        (gate_entry L id s ∷ [], rw (f, at, is) refl, answered at is)
  ]

  item-Answers :
      (id : Option ℕ) (gates : List Gate)
      → HasGates gates
      → (es : List L.Value) × (item_entry L id gates ≡ ok es) × Answers gates id es
  item-Answers none gates has = ([], refl, no_number)
  item-Answers (some id) gates has = entry-Answers id gates has

  pub entries-AnswersAll :
      (els : List L.Value) (gates : List Gate)
      → HasGates gates
      → (es : List L.Value) × (entries L els gates ≡ ok es) × AnswersAll gates els es
  unfolding entries
  entries-AnswersAll [] gates has = ([], refl, nothing)
  entries-AnswersAll (el ∷ els) gates has =
      let (e, one, answers) = item-Answers (L.as_unsigned el) gates has in
      let (es, others, all_answers) = entries-AnswersAll els gates has in
      (e ++ es, rw (one, others) refl, then_item answers all_answers)
