-- ===== src/Bridge/Waiting.antt =====
-- A message of the Arduino that `common_state::update` has no use for stays at the front.
use gate_control.Base.{
  nth, modify, ℕ, zero, suc, ◌+◌, false, List, [], ◌∷◌, ◌++◌, some, drop, drop-drop, ◌≡◌, inl, inr,
  refl, sym, ap, ◌∙◌, subst,
}
use gate_control.Base.Text.{Str}
use gate_control.Json.{JsonLib}
use gate_control.AuthTable.Types.{AuthTable}
use gate_control.Message.{JsonMessage}
use gate_control.Messenger.{Messenger, send_message}
use gate_control.Messenger.Effects.{
  Receives, Writes, on_read-Receives, do_write-Writes, on_write-Writes,
}
use gate_control.Socket.{Session}
use gate_control.Socket.Effects.{
  Drains, Forwards, do_write-Drains, on_write-Drains, on_accept-Drains, do_accept-new,
  on_read-Forwards,
}
use gate_control.Bridge.{World, is_result, add_session}
use gate_control.Bridge.Effects.{Updates, update-Updates}
use gate_control.Bridge.Steps.{
  Step, Reaches, connect, accepted, client_read, client_poll, client_written, updated,
  update_raised, port_read, port_poll, port_written, port_raised, port_written_raised, start, next,
}

-- The texts that wait for the session at a place.
abbrev pub queue_of : ℕ → List Session → List Str
queue_of i [] = []
queue_of zero (s ∷ store) = s.write_queue
queue_of (suc i) (s ∷ store) = queue_of i store

-- No queue has a text that it had not before.
abbrev pub Drained : List Session → List Session → Type 0
Drained store store' = (i : ℕ) → (n : ℕ) × (queue_of i store' ≡ drop n (queue_of i store))

Drained-refl : (store : List Session) → Drained store store
Drained-refl store i = (0, refl)

Drained-trans : (a b c : List Session) → Drained a b → Drained b c → Drained a c
Drained-trans a b c f g i =
    let (m, e) = f i in
    let (n, e') = g i in (m + n, e' ∙ ap (drop n) e ∙ drop-drop n m (queue_of i a))

append-Drained :
    (store : List Session) (s : Session) → s.write_queue ≡ [] → Drained store (store ++ s ∷ [])
append-Drained [] s e zero = (0, e)
append-Drained [] s e (suc i) = (0, refl)
append-Drained (x ∷ store) s e zero = (0, refl)
append-Drained (x ∷ store) s e (suc i) = append-Drained store s e i

modify-Drained :
    (j : ℕ) (store : List Session) (s s' : Session)
    → nth j store ≡ some s
    → Drains s s'
    → Drained store (modify j (λ _. s') store)
modify-Drained j [] s s' found drains i = (0, refl)
modify-Drained zero (x ∷ store) s s' found ((n, e), _) zero =
    let same : s ≡ x = cc in (n, e ∙ ap (λ s. drop n s.write_queue) same)
modify-Drained zero (x ∷ store) s s' found drains (suc i) = (0, refl)
modify-Drained (suc j) (x ∷ store) s s' found drains zero = (0, refl)
modify-Drained (suc j) (x ∷ store) s s' found drains (suc i) =
    modify-Drained j store s s' found drains i

module _ (J : JsonLib) (H : Str → Str) (auth_table : AuthTable) (opaque : Str) where
  abbrev pub IsFirst : JsonMessage J → Messenger J → Type 0
  IsFirst message m = (rest : List (JsonMessage J)) × (m.incoming_message_queue ≡ message ∷ rest)

  -- Nothing comes of a step but that texts which waited are sent.
  abbrev pub Waits : JsonMessage J → World J → World J → Type 0
  Waits message w w' = IsFirst message w'.messenger × Drained w.store w'.store

  module _ (message : JsonMessage J) (no_result : is_result J message.type ≡ false) where
    Receives-IsFirst :
        (m m' : Messenger J) → Receives J m m' → IsFirst message m → IsFirst message m'
    Receives-IsFirst m m' (more, e, _, _) (rest, first) =
        (rest ++ more, e ∙ ap (λ q. q ++ more) first)

    Writes-IsFirst : (m m' : Messenger J) → Writes J m m' → IsFirst message m → IsFirst message m'
    Writes-IsFirst m m' (e, _) (rest, first) = (rest, e ∙ first)

    Forwards-IsFirst :
        (s : Session) (m m' : Messenger J)
        → Forwards J s m m'
        → IsFirst message m
        → IsFirst message m'
    unfolding send_message
    Forwards-IsFirst s m m' (inl e) first = subst (IsFirst message) (sym e) first
    Forwards-IsFirst s m m' (inr (_, _, _, e)) first = subst (IsFirst message) (sym e) first

    Updates-Waits :
        (w w' : World J) → Updates J w w' → IsFirst message w.messenger → Waits message w w'
    Updates-Waits w w' (inl (e, _)) first =
        subst (Waits message w) (sym e) (first, Drained-refl w.store)
    Updates-Waits w w' (inr (inl e)) first =
        subst (Waits message w) (sym e) (first, Drained-refl w.store)
    Updates-Waits w w' (inr (inr (other, _, _, e, result, _, _))) (rest, first) =
        let same : other ≡ message = cc in
        absurd (cc (no_result, result, ap (λ m. is_result J m.type) same))

    Step-Waits :
        {w w' : World J}
        → Step J H auth_table opaque w w'
        → IsFirst message w.messenger
        → Waits message w w'
    unfolding add_session send_message
    Step-Waits {w} (connect {s = s} field method nonce joined e) first =
        subst (Waits message w) (sym e) (
          first,
          append-Drained w.store s
              (do_accept-new H field method auth_table nonce opaque s joined).0,
        )
    Step-Waits {w} (accepted {s = s} i error found _ e) first =
        subst (Waits message w) (sym e)
          (first, modify-Drained i w.store s _ found (on_accept-Drains error s))
    Step-Waits {w} (client_read {s = s} {s' = s'} {m = k} i frame found _ read e) first =
        let (drains, forwards) = on_read-Forwards J frame s s' w.messenger k read in
        subst (Waits message w) (sym e) (
          Forwards-IsFirst s w.messenger k forwards first,
          modify-Drained i w.store s s' found drains,
        )
    Step-Waits {w} (client_poll {s = s} i found _ e) first =
        subst (Waits message w) (sym e)
          (first, modify-Drained i w.store s _ found (do_write-Drains s))
    Step-Waits {w} (client_written {s = s} i error found _ e) first =
        subst (Waits message w) (sym e)
          (first, modify-Drained i w.store s _ found (on_write-Drains error s))
    Step-Waits {w} {w'} (updated _ e) first = Updates-Waits w w' (update-Updates J w w' e) first
    Step-Waits {w} (update_raised _ _ e) first =
        subst (Waits message w) (sym e) (first, Drained-refl w.store)
    Step-Waits {w} (port_read {m = k} bytes _ read e) first = subst (Waits message w) (sym e) (
      Receives-IsFirst w.messenger k (on_read-Receives J bytes w.messenger k read) first,
      Drained-refl w.store,
    )
    Step-Waits {w} (port_poll {m = k} _ written e) first = subst (Waits message w) (sym e) (
      Writes-IsFirst w.messenger k (do_write-Writes J w.messenger k written) first,
      Drained-refl w.store,
    )
    Step-Waits {w} (port_written {m = k} error _ written e) first =
        subst (Waits message w) (sym e) (
          Writes-IsFirst w.messenger k (on_write-Writes J error w.messenger k written) first,
          Drained-refl w.store,
        )
    Step-Waits {w} (port_raised _ _ e) first =
        subst (Waits message w) (sym e) (first, Drained-refl w.store)
    Step-Waits {w} (port_written_raised _ _ e) first =
        subst (Waits message w) (sym e) (first, Drained-refl w.store)

    -- Once a message that is no result is the first of the Arduino's, it is for ever, and no client
    -- is sent a state again: whatever happens, their queues only get shorter.
    pub Reaches-Waits :
        {w w' : World J}
        → Reaches J H auth_table opaque w w'
        → IsFirst message w.messenger
        → Waits message w w'
    Reaches-Waits {w} start first = (first, Drained-refl w.store)
    Reaches-Waits {w} {w'} (next {v = v} steps step) first =
        let (there, drained) = Reaches-Waits steps first in
        let (still, more) = Step-Waits step there in
        (still, Drained-trans w.store v.store w'.store drained more)
