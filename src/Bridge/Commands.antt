-- ===== src/Bridge/Commands.antt =====
-- What the Arduino is sent.
use gate_control.Base.{
  nth, modify, ℕ, true, ◌==◌, List, [], ◌∷◌, some, length, ◌≡◌, ◌⊎◌, inl, inr, refl, sym, ap, ◌∙◌,
  subst, All, All-append, Bool-cases,
}
use gate_control.Base.Text.{Str}
use gate_control.Base.Outcome.{ok, ok-elim}
use gate_control.Json.{JsonLib}
use gate_control.AuthTable.Types.{AuthTable, control}
use gate_control.Message.{JsonMessage, dump_message}
use gate_control.Messenger.{Messenger, send_message, idle, run, do_read, do_write}
use gate_control.Messenger.Effects.{
  Receives, Writes, on_read-Receives, do_write-Writes, on_write-Writes,
}
use gate_control.Socket.{Session, is_request}
use gate_control.Socket.Effects.{
  HasController, Drains, Forwards, do_write-Drains, on_write-Drains, on_accept-Drains,
  do_accept-new, on_read-Forwards,
}
use gate_control.Bridge.{World, state_query, add_session}
use gate_control.Bridge.Effects.{
  at_place, at_place-append, at_place-nth, at_place-modify, send_all-permissions, Updates,
  update-Updates,
}
use gate_control.Bridge.Steps.{
  Step, Reaches, connect, accepted, client_read, client_poll, client_written, updated,
  update_raised, port_read, port_poll, port_written, port_raised, port_written_raised, start, next,
  initial,
}

module _ (J : JsonLib) (H : Str → Str) (auth_table : AuthTable) (opaque : Str) where
  -- The query of the states, or a query or change that a user with control may have sent.
  abbrev pub IsAllowed : JsonMessage J → Type 0
  IsAllowed message =
      (message ≡ state_query J) ⊎ ((is_request message.type ≡ true) × HasController auth_table)

  -- Text that an allowed message is written as.
  abbrev pub IsAllowedText : Str → Type 0
  IsAllowedText t = (message : JsonMessage J) × (dump_message J message ≡ ok t) × IsAllowed message

  abbrev pub IsSafeMessenger : Messenger J → Type 0
  IsSafeMessenger m = All IsAllowed m.outgoing_message_queue × All IsAllowedText m.written

  abbrev IsSafeStore : List Session → Type 0
  IsSafeStore store =
      (i : ℕ) → at_place (λ s. s.permissions) i store ≡ some control → HasController auth_table

  abbrev IsSafe : World J → Type 0
  IsSafe w = IsSafeMessenger w.messenger × IsSafeStore w.store

  Receives-IsSafe : (m m' : Messenger J) → Receives J m m' → IsSafeMessenger m → IsSafeMessenger m'
  Receives-IsSafe m m' (_, _, queue, written) (q, t) =
      (subst (All IsAllowed) (sym queue) q, subst (All IsAllowedText) (sym written) t)

  Writes-IsSafe : (m m' : Messenger J) → Writes J m m' → IsSafeMessenger m → IsSafeMessenger m'
  Writes-IsSafe m m' (_, inl (queue, written)) (q, t) =
      (subst (All IsAllowed) (sym queue) q, subst (All IsAllowedText) (sym written) t)
  Writes-IsSafe m m' (_, inr (jmsg, s, first, dumped, written)) (q, t) =
      let (allowed, rest) = subst (All IsAllowed) first q in
      (
        rest,
        subst (All IsAllowedText) (sym written)
            (All-append IsAllowedText m.written (s ∷ []) t ((jmsg, dumped, allowed), tt)),
      )

  send_message-IsSafe :
      (message : JsonMessage J) (m : Messenger J)
      → IsAllowed message
      → IsSafeMessenger m
      → IsSafeMessenger (send_message J message m)
  unfolding send_message
  send_message-IsSafe message m allowed (q, t) =
      (All-append IsAllowed m.outgoing_message_queue (message ∷ []) q (allowed, tt), t)

  Forwards-IsSafe :
      (s : Session) (m m' : Messenger J)
      → Forwards J s m m'
      → (s.permissions ≡ control → HasController auth_table)
      → IsSafeMessenger m
      → IsSafeMessenger m'
  Forwards-IsSafe s m m' (inl e) known safe = subst IsSafeMessenger (sym e) safe
  Forwards-IsSafe s m m' (inr (message, r, c, e)) known safe =
      subst IsSafeMessenger (sym e) (send_message-IsSafe message m (inr (r, known c)) safe)

  -- A session takes the place of another with its permissions.
  Drains-IsSafe :
      (i : ℕ) (store : List Session) (s s' : Session)
      → nth i store ≡ some s
      → Drains s s'
      → IsSafeStore store
      → IsSafeStore (modify i (λ _. s') store)
  Drains-IsSafe i store s s' found drains safe k h = safe k (
      sym (
        at_place-modify (λ s. s.permissions) k i (λ _. s') store
          (λ x there. let e : s ≡ x = cc in drains.1 ∙ ap (λ s. s.permissions) e))
      ∙ h)

  add_session-IsSafe :
      (w : World J) (s : Session)
      → (s.permissions ≡ control → HasController auth_table)
      → IsSafe w
      → IsSafe (add_session J s w)
  unfolding add_session
  add_session-IsSafe w s known (m, store) = (
    send_message-IsSafe (state_query J) w.messenger (inl refl) m,
    λ i h. elim (Bool-cases (i == length w.store)) [
      | inl e ↦ known (
          let same : some s.permissions ≡ some control =
            sym (at_place-append (λ s. s.permissions) i w.store s ∙ rw e) ∙ h in
          cc)
      | inr e ↦ store i (sym (at_place-append (λ s. s.permissions) i w.store s ∙ rw e) ∙ h)
    ],
  )

  Updates-IsSafe : (w w' : World J) → Updates J w w' → IsSafe w → IsSafe w'
  Updates-IsSafe w w' (inl (e, _)) safe = subst IsSafe (sym e) safe
  Updates-IsSafe w w' (inr (inl e)) safe = subst IsSafe (sym e) safe
  Updates-IsSafe w w' (inr (inr (message, rest, store, _, _, sent, e))) safe =
      let (_, same) = send_all-permissions J message _ w.store store sent in
      subst IsSafe (sym e) (safe.0, λ i h. safe.1 i (sym (same i) ∙ h))

  Step-IsSafe : {w w' : World J} → Step J H auth_table opaque w w' → IsSafe w → IsSafe w'
  Step-IsSafe {w} (connect {s = s} field method nonce joined e) safe = subst IsSafe (sym e) (
      add_session-IsSafe w s (do_accept-new H field method auth_table nonce opaque s joined).1 safe)
  Step-IsSafe {w} (accepted {s = s} i error found _ e) (m, store) =
      subst IsSafe (sym e) (m, Drains-IsSafe i w.store s _ found (on_accept-Drains error s) store)
  Step-IsSafe {w} (client_read {s = s} {s' = s'} {m = k} i frame found _ read e) (m, store) =
      let (drains, forwards) = on_read-Forwards J frame s s' w.messenger k read in
      subst IsSafe (sym e) (
        Forwards-IsSafe s w.messenger k forwards
            (λ c. store i (at_place-nth (λ s. s.permissions) i w.store s found ∙ ap some c)) m,
        Drains-IsSafe i w.store s s' found drains store,
      )
  Step-IsSafe {w} (client_poll {s = s} i found _ e) (m, store) =
      subst IsSafe (sym e) (m, Drains-IsSafe i w.store s _ found (do_write-Drains s) store)
  Step-IsSafe {w} (client_written {s = s} i error found _ e) (m, store) =
      subst IsSafe (sym e) (m, Drains-IsSafe i w.store s _ found (on_write-Drains error s) store)
  Step-IsSafe {w} {w'} (updated _ e) safe = Updates-IsSafe w w' (update-Updates J w w' e) safe
  Step-IsSafe {w} (update_raised _ _ e) safe = subst IsSafe (sym e) safe
  Step-IsSafe {w} (port_read {m = k} bytes _ read e) (m, store) =
      subst IsSafe (sym e)
        (Receives-IsSafe w.messenger k (on_read-Receives J bytes w.messenger k read) m, store)
  Step-IsSafe {w} (port_poll {m = k} _ written e) (m, store) =
      subst IsSafe (sym e)
        (Writes-IsSafe w.messenger k (do_write-Writes J w.messenger k written) m, store)
  Step-IsSafe {w} (port_written {m = k} error _ written e) (m, store) =
      subst IsSafe (sym e)
        (Writes-IsSafe w.messenger k (on_write-Writes J error w.messenger k written) m, store)
  Step-IsSafe {w} (port_raised _ _ e) safe = subst IsSafe (sym e) safe
  Step-IsSafe {w} (port_written_raised _ _ e) safe = subst IsSafe (sym e) safe

  Reaches-IsSafe : {u w : World J} → Reaches J H auth_table opaque u w → IsSafe u → IsSafe w
  Reaches-IsSafe start safe = safe
  Reaches-IsSafe (next steps step) safe = Step-IsSafe step (Reaches-IsSafe steps safe)

  -- However the server runs from its start, each text that was handed to the Arduino, and each
  -- message that waits for it, is the query of the states, or else a query or a change of states,
  -- and this only if a user of the table has the permission to control.
  pub Reaches-IsSafeMessenger :
      (m : Messenger J) (w : World J)
      → run J (idle J) ≡ ok m
      → Reaches J H auth_table opaque (initial J H auth_table opaque m) w
      → IsSafeMessenger w.messenger
  unfolding run do_read do_write
  Reaches-IsSafeMessenger m w running steps =
      (Reaches-IsSafe steps (ok-elim IsSafeMessenger running (tt, tt), λ i h. absurd (cc h))).0
