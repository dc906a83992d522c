-- ===== src/Message/RoundTrip.antt =====
-- Messages that are written are read back; what an unknown type does.
use gate_control.Base.{
  false, [], ◌∷◌, some, ◌≡◌, ◌≢◌, ◌↔◌, refl, sym, ap, ◌∙◌, arith, inl, inr, ◌⊎◌, Bool-cases,
}
use gate_control.Base.Text.{Str, codes, str_eq}
use gate_control.Base.Text.Laws.{str_eq_iff}
use gate_control.Base.Outcome.{ok, undefined, ◌>>=◌}
use gate_control.Json.{JsonLib, JsonLaws, lookup}
use gate_control.Message.{
  MessageType, query_state, query_state_result, change_state, availability, text, type_to_str,
  str_to_type, JsonMessage, dump_message, message_of, parse_message, malformed,
}

str_to_type-type_to_str : (t : MessageType) → str_to_type (type_to_str t) ≡ ok t
unfolding str_to_type type_to_str str_eq
str_to_type-type_to_str query_state = refl
str_to_type-type_to_str query_state_result = refl
str_to_type-type_to_str change_state = refl
str_to_type-type_to_str availability = refl
str_to_type-type_to_str text = refl

-- A name of a type is one of the five.
all_types :
    (P : MessageType → Type 0)
    → P query_state
    → P query_state_result
    → P change_state
    → P availability
    → P text
    → (t : MessageType) → P t
all_types P a b c d e query_state = a
all_types P a b c d e query_state_result = b
all_types P a b c d e change_state = c
all_types P a b c d e availability = d
all_types P a b c d e text = e

str_to_type_cases :
    (s : Str)
    → ((t : MessageType) × (s ≡ type_to_str t))
      ⊎ ((str_to_type s ≡ undefined) × ((t : MessageType) → s ≢ type_to_str t))
unfolding str_to_type type_to_str
str_to_type_cases s = elim (Bool-cases (str_eq s (codes "query_state"))) [
  | inl hit ↦ inl (query_state, (str_eq_iff s _).0 hit)
  | inr a ↦ elim (Bool-cases (str_eq s (codes "query_state_result"))) [
    | inl hit ↦ inl (query_state_result, (str_eq_iff s _).0 hit)
    | inr b ↦ elim (Bool-cases (str_eq s (codes "change_state"))) [
      | inl hit ↦ inl (change_state, (str_eq_iff s _).0 hit)
      | inr c ↦ elim (Bool-cases (str_eq s (codes "availability"))) [
        | inl hit ↦ inl (availability, (str_eq_iff s _).0 hit)
        | inr d ↦ elim (Bool-cases (str_eq s (codes "text"))) [
          | inl hit ↦ inl (text, (str_eq_iff s _).0 hit)
          | inr e ↦ inr (
            rw (a, b, c, d, e),
            all_types (λ t. s ≢ type_to_str t) (apart _ a) (apart _ b) (apart _ c) (apart _ d)
                (apart _ e),
          )
        ]
      ]
    ]
  ]
]
  where
    apart : (t : Str) → str_eq s t ≡ false → s ≢ t
    apart t h e = cc (h, (str_eq_iff s t).1 e)

-- A name gives a type exactly if it is the name of that type.
pub str_to_type_iff : (s : Str) (t : MessageType) → (str_to_type s ≡ ok t) ↔ (s ≡ type_to_str t)
str_to_type_iff s t = (to (str_to_type_cases s), λ e. ap str_to_type e ∙ str_to_type-type_to_str t)
  where
    to :
        ((u : MessageType) × (s ≡ type_to_str u))
          ⊎ ((str_to_type s ≡ undefined) × ((u : MessageType) → s ≢ type_to_str u))
        → str_to_type s ≡ ok t
        → s ≡ type_to_str t
    to (inl (u, e)) h =
        let found : ok u ≡ ok t = sym (ap str_to_type e ∙ str_to_type-type_to_str u) ∙ h in
        let same : u ≡ t = cc in e ∙ ap type_to_str same
    to (inr (e, _)) h = absurd (cc (e, h))

-- A name has no defined result exactly if it is the name of no type: then the function ends
-- without a `return`.
pub str_to_type_undefined :
    (s : Str) → (str_to_type s ≡ undefined) ↔ ((t : MessageType) → s ≢ type_to_str t)
str_to_type_undefined s =
    (λ h t e. cc (h, ap str_to_type e, str_to_type-type_to_str t), back (str_to_type_cases s))
  where
    back :
        ((u : MessageType) × (s ≡ type_to_str u))
          ⊎ ((str_to_type s ≡ undefined) × ((u : MessageType) → s ≢ type_to_str u))
        → ((t : MessageType) → s ≢ type_to_str t)
        → str_to_type s ≡ undefined
    back (inl (u, e)) h = absurd (h u e)
    back (inr (e, _)) h = e

-- The object of a message, with any name in the place of the type.
abbrev pub named_object : (J : JsonLib) → Str → J.Value → J.Value
named_object J name payload =
    J.of_object ((codes "type", J.of_string name) ∷ (codes "payload", payload) ∷ [])

module _ (J : JsonLib) (laws : JsonLaws J) where
  member-type :
      (name : Str) (payload : J.Value)
      → J.member (named_object J name payload) (codes "type") ≡ J.of_string name
  member-type name payload = laws.object_member _ _ _ (unfold lookup str_eq in refl)

  member-payload :
      (name : Str) (payload : J.Value)
      → J.member (named_object J name payload) (codes "payload") ≡ payload
  member-payload name payload = laws.object_member _ _ _ (unfold lookup str_eq in refl)

  not-malformed :
      (name : Str) (payload : J.Value) → malformed J (named_object J name payload) ≡ false
  not-malformed name payload =
      rw
        (
          laws.object_is_object _,
          member-type name payload,
          laws.string_is_string _,
          member-payload name payload,
        )
        (ground (arith, laws.primitive_or_structured payload))

  -- The name decides.
  pub message_of-named_object :
      (name : Str) (payload : J.Value)
      → message_of J (named_object J name payload)
        ≡ (str_to_type name >>= λ t. ok (record { type = t; payload = payload }))
  unfolding message_of
  message_of-named_object name payload = rw (
    not-malformed name payload,
    member-type name payload,
    laws.string_as_string _,
    member-payload name payload,
  )

  -- A message that is written and parsed is the same message, whenever the JSON library reads back
  -- what it wrote as this text.
  pub parse_message-dump_message :
      (m : JsonMessage J) (s : Str)
      → ((v : J.Value) → J.dump v ≡ ok s → J.parse s ≡ some v)
      → dump_message J m ≡ ok s
      → parse_message J s ≡ ok m
  unfolding parse_message dump_message
  parse_message-dump_message m s reads_back written = rw (reads_back _ written) (
      message_of-named_object (type_to_str m.type) m.payload
      ∙ ap (λ o. o >>= λ t. ok (record { type = t; payload = m.payload }))
          (str_to_type-type_to_str m.type))

  -- A well formed object with a name that is no type's has no defined result: `parse_message` does
  -- not throw, as it does on other malformed input.
  pub parse_message_undefined :
      (s name : Str) (payload : J.Value)
      → J.parse s ≡ some (named_object J name payload)
      → ((t : MessageType) → name ≢ type_to_str t)
      → parse_message J s ≡ undefined
  unfolding parse_message
  parse_message_undefined s name payload read unknown = rw read (
      message_of-named_object name payload
      ∙ ap (λ o. o >>= λ t. ok (record { type = t; payload = payload }))
          ((str_to_type_undefined name).1 unknown))
