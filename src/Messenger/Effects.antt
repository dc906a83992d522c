-- ===== src/Messenger/Effects.antt =====
-- What a handler of the messenger changes, as far as the invariants of the bridge ask.
use gate_control.Base.{
  Bool, true, false, ◌==◌, List, [], ◌∷◌, ◌++◌, append-nil, Option, none, some, length, drop, ◌≡◌,
  ◌⊎◌, inl, inr, refl, sym, ◌∙◌, Bool-cases,
}
use gate_control.Base.Text.{Str}
use gate_control.Base.Outcome.{Outcome, ok, raised, undefined, ok-elim, bind-ok}
use gate_control.Json.{JsonLib}
use gate_control.Message.{JsonMessage, dump_message, parse_message}
use gate_control.Messenger.{Messenger, received, write_next, do_read, on_read, do_write, on_write}

module _ (J : JsonLib) where
  -- A read of the port: at most the queue of incoming messages grows, at its end.
  abbrev pub Receives : Messenger J → Messenger J → Type 0
  Receives m m' =
      (more : List (JsonMessage J)) × (m'.incoming_message_queue ≡ m.incoming_message_queue ++ more)
      × (m'.outgoing_message_queue ≡ m.outgoing_message_queue)
      × (m'.written ≡ m.written)

  received-Receives :
      (left : Str) (m m' : Messenger J) (o : Outcome (JsonMessage J))
      → received J left m o ≡ ok m'
      → Receives m m'
  unfolding do_read
  received-Receives left m m' (ok jmsg) h = ok-elim (Receives m) h (jmsg ∷ [], refl, refl, refl)
  received-Receives left m m' raised h = ok-elim (Receives m) h ([], sym (append-nil _), refl, refl)
  received-Receives left m m' undefined h = absurd (cc h)

  pub on_read-Receives :
      (bytes : Option Str) (m m' : Messenger J) → on_read J bytes m ≡ ok m' → Receives m m'
  unfolding on_read do_read
  on_read-Receives none m m' h = ok-elim (Receives m) h ([], sym (append-nil _), refl, refl)
  on_read-Receives (some bytes) m m' h = elim (Bool-cases (length bytes == 0)) [
    | inl nothing ↦
        let e : on_read J (some bytes) m ≡ ok (do_read J m) = rw nothing in
        ok-elim (Receives m) (sym e ∙ h) ([], sym (append-nil _), refl, refl)
    | inr longer ↦
        let left = drop (length bytes) (m.buffer ++ bytes) in
        let o = parse_message J (m.buffer ++ bytes) in
        let e : on_read J (some bytes) m ≡ received J left m o = rw longer in
        received-Receives left m m' o (sym e ∙ h)
  ]

  -- A write to the port: at most the first outgoing message goes.
  abbrev pub Writes : Messenger J → Messenger J → Type 0
  Writes m m' =
      (m'.incoming_message_queue ≡ m.incoming_message_queue)
      × (((m'.outgoing_message_queue ≡ m.outgoing_message_queue) × (m'.written ≡ m.written))
          ⊎ ((jmsg : JsonMessage J) × (t : Str) × (m.outgoing_message_queue
                ≡ jmsg ∷ m'.outgoing_message_queue)
              × (dump_message J jmsg ≡ ok t)
              × (m'.written ≡ m.written ++ t ∷ [])))

  write_next-Writes :
      (queue : List (JsonMessage J)) (m m' : Messenger J)
      → m.outgoing_message_queue ≡ queue
      → write_next J queue m ≡ ok m'
      → Writes m m'
  write_next-Writes [] m m' e h = ok-elim (Writes m) h (refl, inl (refl, refl))
  write_next-Writes (jmsg ∷ rest) m m' e h =
      let (t, dumped, h') = bind-ok (dump_message J jmsg) _ h in
      ok-elim (Writes m) h' (refl, inr (jmsg, t, e, dumped, refl))

  pub do_write-Writes : (m m' : Messenger J) → do_write J m ≡ ok m' → Writes m m'
  unfolding do_write
  do_write-Writes m m' h = write_next-Writes m.outgoing_message_queue m m' refl h

  pub on_write-Writes :
      (error : Bool) (m m' : Messenger J) → on_write J error m ≡ ok m' → Writes m m'
  unfolding on_write
  on_write-Writes true m m' h = ok-elim (Writes m) h (refl, inl (refl, refl))
  on_write-Writes false m m' h = do_write-Writes (record m { outgoing_message_buffer = [] }) m' h
