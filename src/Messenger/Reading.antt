-- ===== src/Messenger/Reading.antt =====
-- What the reads from the serial port leave behind.
use gate_control.Base.{
  List, [], ◌∷◌, ◌++◌, append-nil, append_assoc, Option, none, some, length, drop, drop-all, ◌==◌,
  if◌then◌else◌, ◌≡◌, inl, inr, refl, ap, ◌∙◌, Bool, true, false, arith,
}
use gate_control.Base.Text.{Str}
use gate_control.Base.Outcome.{Outcome, ok, raised, undefined, ◌>>=◌, Outcome-cases}
use gate_control.Json.{JsonLib}
use gate_control.Message.{JsonMessage, parse_message}
use gate_control.Messenger.{Messenger, received, do_read, on_read}

-- Whether no read failed.
abbrev pub all_good : List (Option Str) → Bool
all_good [] = true
all_good (none ∷ reads) = false
all_good (some bytes ∷ reads) = all_good reads

module _ (J : JsonLib) where
  -- The loop of reads, on what the port gives one after the other: `on_read` calls `do_read` again,
  -- but for an error.
  unfoldable pub read_all : List (Option Str) → Messenger J → Outcome (Messenger J)
  unfolding on_read
  read_all [] m = ok m
  read_all (r ∷ reads) m =
      let rest = read_all reads in if m.is_reading then on_read J r m >>= rest else ok m

  abbrev heard :
      Outcome (JsonMessage J) → Outcome (List (JsonMessage J)) → Outcome (List (JsonMessage J))
  heard (ok jmsg) later = later >>= λ jmsgs. ok (jmsg ∷ jmsgs)
  heard raised later = later
  heard undefined later = undefined

  -- The messages that the reads stand for, each read a document of its own, up to the first error.
  abbrev pub documents : List (Option Str) → Outcome (List (JsonMessage J))
  documents [] = ok []
  documents (none ∷ reads) = ok []
  documents (some [] ∷ reads) = documents reads
  documents (some (c ∷ s) ∷ reads) = heard (parse_message J (c ∷ s)) (documents reads)

  -- A messenger with an empty buffer, behind some messages.
  abbrev pub behind : List (Option Str) → Messenger J → List (JsonMessage J) → Outcome (Messenger J)
  behind reads m jmsgs = ok (record m {
    buffer = [];
    incoming_message_queue = m.incoming_message_queue ++ jmsgs;
    is_reading = all_good reads;
  })

  behind-cons :
      (reads : List (Option Str)) (m : Messenger J) (jmsg : JsonMessage J)
      (later : Outcome (List (JsonMessage J)))
      → (later
          >>= behind reads (record m {
            buffer = [];
            incoming_message_queue = m.incoming_message_queue ++ jmsg ∷ [];
            is_reading = true;
          }))
        ≡ ((later >>= λ jmsgs. ok (jmsg ∷ jmsgs)) >>= behind reads m)
  behind-cons reads m jmsg (ok jmsgs) =
      ap
        (λ q.
          ok (record m { buffer = []; incoming_message_queue = q; is_reading = all_good reads }))
        (append_assoc m.incoming_message_queue (jmsg ∷ []) jmsgs)
  behind-cons reads m jmsg raised = refl
  behind-cons reads m jmsg undefined = refl

  on_read-bytes :
      (bytes : Str) (m : Messenger J)
      → (length bytes == 0) ≡ false
      → m.buffer ≡ []
      → on_read J (some bytes) m ≡ received J [] m (parse_message J bytes)
  unfolding on_read
  on_read-bytes bytes m longer fresh =
      let gone : drop (length bytes) bytes ≡ [] = drop-all (length bytes) bytes (omega arith) in
      rw (longer, fresh, gone) refl

  read_all-stopped :
      (reads : List (Option Str)) (m : Messenger J) → m.is_reading ≡ false → read_all reads m ≡ ok m
  unfolding read_all
  read_all-stopped [] m h = refl
  read_all-stopped (r ∷ reads) m h = rw h refl

  read_all-next :
      (r : Option Str) (reads : List (Option Str)) (m : Messenger J)
      → m.is_reading ≡ true
      → read_all (r ∷ reads) m ≡ (on_read J r m >>= read_all reads)
  unfolding read_all
  read_all-next r reads m h = rw h refl

  -- From an empty buffer, each read that is not empty is parsed as one document, by itself: the
  -- messages that parse are queued in their order, the texts for which the parser throws are lost,
  -- empty reads change nothing, and the buffer is empty again. With the first error the reading
  -- ends; without one it goes on. If the parser has no defined result for one of the reads before
  -- the first error, there is no defined result.
  pub read_all-documents :
      (reads : List (Option Str)) (m : Messenger J)
      → m.buffer ≡ []
      → m.is_reading ≡ true
      → read_all reads m ≡ (documents reads >>= behind reads m)
  unfolding read_all do_read on_read
  read_all-documents [] m fresh reading =
      rw (append-nil m.incoming_message_queue, ← fresh, ← reading) refl
  read_all-documents (none ∷ reads) m fresh reading =
      read_all-next none reads m reading
      ∙ read_all-stopped reads (record m { is_reading = false }) refl
      ∙ rw (append-nil m.incoming_message_queue, ← fresh) refl
  read_all-documents (some [] ∷ reads) m fresh reading =
      read_all-next (some []) reads m reading
      ∙ read_all-documents reads (record m { is_reading = true }) fresh refl
  read_all-documents (some (c ∷ s) ∷ reads) m fresh reading =
      let bytes = c ∷ s in
      let longer : (length bytes == 0) ≡ false = ground arith in
      let first : read_all (some bytes ∷ reads) m
          ≡ (received J [] m (parse_message J bytes) >>= read_all reads) =
        read_all-next (some bytes) reads m reading
        ∙ ap (λ o. o >>= read_all reads) (on_read-bytes bytes m longer fresh) in
      first ∙ elim (Outcome-cases (parse_message J bytes)) [
        | inl (jmsg, parsed) ↦ rw parsed (
            read_all-documents reads
              (record m {
                buffer = [];
                incoming_message_queue = m.incoming_message_queue ++ jmsg ∷ [];
                is_reading = true;
              })
              refl refl
            ∙ behind-cons reads m jmsg (documents reads))
        | inr (inl failed) ↦
            rw failed
              (read_all-documents reads (record m { buffer = []; is_reading = true }) refl refl)
        | inr (inr unknown) ↦ rw unknown refl
      ]
