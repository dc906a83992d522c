-- ===== src/Http/Session/Queue.antt =====
-- The queue of responses holds none between two handlers of a session, and a request that is read
-- while a response is being written blocks.
use gate_control.Base.{
  ◌+◌, Bool, true, false, [], ◌∷◌, ◌++◌, Option, none, some, length, ltb, ◌≡◌, ◌⊎◌, inl, inr, refl,
  sym, ap, ◌∙◌, subst, some-elim, Bool-cases, Option-cases,
}
use gate_control.Base.Text.{Str}
use gate_control.Base.Outcome.{Outcome, ok, bind-ok, ok-elim, ◌>>=◌}
use gate_control.Http.Response.{Request, Response}
use gate_control.Http.Session.{
  HttpSession, Received, end_of_stream, read_error, received, queue_limit, do_write, queue_write,
  read_if_room, refusal, after_refusal, on_request, on_read, on_write, new_http_session, Step,
  Reaches, reads, writes, renews, start, next,
}

-- Nothing is queued, and the semaphore is free exactly if no response is being written.
abbrev pub IsIdle : HttpSession → Type 0
IsIdle s = (s.response_queue ≡ []) × (s.permits ≡ 1) × (s.in_flight ≡ none)

abbrev pub IsBusy : HttpSession → Type 0
IsBusy s = (s.response_queue ≡ []) × (s.permits ≡ 0) × ((msg : Response) × (s.in_flight ≡ some msg))

abbrev pub IsSound : HttpSession → Type 0
IsSound s = IsIdle s ⊎ IsBusy s

-- A session that has begun to write a response.
abbrev pub writing : Response → HttpSession → HttpSession
writing msg s = record s {
  response_queue = [];
  permits = 0;
  in_flight = some msg;
  sent = s.sent ++ msg ∷ [];
}

queue_write-idle :
    (msg : Response) (s : HttpSession) → IsIdle s → queue_write msg s ≡ some (writing msg s)
unfolding queue_write do_write
queue_write-idle msg s (empty, free, _) = rw (empty, free)

queue_write-busy : (msg : Response) (s : HttpSession) → IsBusy s → queue_write msg s ≡ none
unfolding queue_write do_write
queue_write-busy msg s (empty, taken, _) = rw (empty, taken)

-- A response is written at once, or the handler waits for ever.
queue_write-IsSound :
    (msg : Response) (s s' : HttpSession) → IsSound s → queue_write msg s ≡ some s' → IsSound s'
queue_write-IsSound msg s s' (inl idle) h =
    some-elim IsSound (sym (queue_write-idle msg s idle) ∙ h) (inr (refl, refl, (msg, refl)))
queue_write-IsSound msg s s' (inr busy) h = absurd (cc (queue_write-busy msg s busy, h))

read_if_room-IsSound :
    (msg : Response) (s s' : HttpSession)
    → IsSound s
    → read_if_room (queue_write msg s) ≡ some s'
    → IsSound s'
read_if_room-IsSound msg s s' sound h = elim (Option-cases (queue_write msg s)) [
  | inl waits ↦ absurd (cc (h, ap read_if_room waits))
  | inr (t, written) ↦
      let t_sound : IsSound t = queue_write-IsSound msg s t sound written in
      some-elim IsSound (sym (ap read_if_room written) ∙ h)
        (elim (Bool-cases (ltb (length t.response_queue) queue_limit)) [
          | inl room ↦ rw room t_sound
          | inr full ↦ rw full t_sound
        ])
]

after_refusal-IsSound :
    (r : Option (Response × Str)) (s s' : HttpSession)
    → IsSound s
    → after_refusal s r ≡ some s'
    → IsSound s'
after_refusal-IsSound none s s' sound h = some-elim IsSound h sound
after_refusal-IsSound (some (res, nonce)) s s' sound h =
    queue_write-IsSound res (record s { nonce = nonce; is_reading = false }) s' sound h

-- The end of a write leaves a session idle.
on_write-IsSound :
    (keep_alive error : Bool) (s s' : HttpSession)
    → IsBusy s
    → on_write keep_alive error s ≡ some s'
    → IsSound s'
unfolding on_write do_write
on_write-IsSound keep_alive true s s' (empty, taken, _) h =
    some-elim IsSound h (inl (empty, ap (λ n. n + 1) taken, refl))
on_write-IsSound false false s s' (empty, taken, _) h =
    some-elim IsSound h (inl (empty, ap (λ n. n + 1) taken, refl))
on_write-IsSound true false s s' (empty, taken, _) h =
    let released : HttpSession = record s { permits = s.permits + 1; in_flight = none } in
    let e : on_write true false s ≡ some released = rw empty in
    some-elim IsSound (sym e ∙ h) (inl (empty, ap (λ n. n + 1) taken, refl))

module _ (handler : Request → Str → Outcome (Response × Str)) where
  -- What a session does with a request whose response is `res`.
  abbrev pub Answers : Request → Response → Str → HttpSession → Type 0
  Answers req res nonce s =
      ((s.in_flight ≡ none)
        × (on_request handler req s
            ≡ ok (some (record (writing res s) { nonce = nonce; is_reading = true }))))
      ⊎ ((msg : Response) × (s.in_flight ≡ some msg) × (on_request handler req s ≡ ok none))

  IsSound-Answers :
      (req : Request) (res : Response) (nonce : Str) (s : HttpSession)
      → IsSound s
      → handler req s.nonce ≡ ok (res, nonce)
      → Answers req res nonce s
  unfolding on_request
  IsSound-Answers req res nonce s (inl (empty, free, none_yet)) handled = inl (
    none_yet,
    rw (
      handled,
      queue_write-idle res (record s { nonce = nonce; is_reading = false }) (empty, free, none_yet),
    ),
  )
  IsSound-Answers req res nonce s (inr (empty, taken, (msg, busy))) handled = inr (
    msg,
    busy,
    rw (
      handled,
      queue_write-busy res (record s { nonce = nonce; is_reading = false })
          (empty, taken, (msg, busy)),
    ),
  )

  on_request-IsSound :
      (req : Request) (s s' : HttpSession)
      → IsSound s
      → on_request handler req s ≡ ok (some s')
      → IsSound s'
  unfolding on_request
  on_request-IsSound req s s' sound h =
      let ((res, nonce), _, h') = bind-ok (handler req s.nonce) _ h in
      read_if_room-IsSound res (record s { nonce = nonce; is_reading = false }) s' sound
        (ok-elim (λ o. o ≡ some s') (sym h') refl)

  module _ (opaque : Str) where
    on_read-IsSound :
        (r : Received) (fresh : Str) (s s' : HttpSession)
        → IsSound s
        → on_read handler opaque fresh r s ≡ ok (some s')
        → IsSound s'
    unfolding on_read
    on_read-IsSound end_of_stream fresh s s' sound h =
        some-elim IsSound (ok-elim (λ o. o ≡ some s') (sym h) refl) sound
    on_read-IsSound read_error fresh s s' sound h =
        some-elim IsSound (ok-elim (λ o. o ≡ some s') (sym h) refl) sound
    on_read-IsSound (received req) fresh s s' sound h = elim (Bool-cases req.upgrade) [
      | inl up ↦
          let chain : (refusal opaque req s.nonce fresh >>= λ r. ok (after_refusal s r))
              ≡ ok (some s') =
            sym (rw up) ∙ h in
          let (r, _, h') = bind-ok (refusal opaque req s.nonce fresh) _ chain in
          after_refusal-IsSound r s s' sound (ok-elim (λ o. o ≡ some s') (sym h') refl)
      | inr plain ↦ on_request-IsSound req s s' sound (sym (rw plain) ∙ h)
    ]

    Step-IsSound : {s s' : HttpSession} → Step handler opaque s s' → IsSound s → IsSound s'
    Step-IsSound {s} {s'} (reads r fresh _ h) sound = on_read-IsSound r fresh s s' sound h
    Step-IsSound {s} {s'} (writes msg error busy h) (inl (_, _, idle)) = absurd (cc (busy, idle))
    Step-IsSound {s} {s'} (writes msg error busy h) (inr sound) =
        on_write-IsSound msg.keep_alive error s s' sound h
    Step-IsSound (renews nonce e) sound = subst IsSound (sym e) sound

    Reaches-IsSound : {r s : HttpSession} → Reaches handler opaque r s → IsSound r → IsSound s
    Reaches-IsSound start sound = sound
    Reaches-IsSound (next steps step) sound = Step-IsSound step (Reaches-IsSound steps sound)

    -- However a session runs, no response waits in its queue between two handlers. A request that
    -- the handler answers has its response written at once and another request read, if no response
    -- is being written then; otherwise it waits for the semaphore for ever.
    pub Reaches-Answers :
        (req : Request) (res : Response) (first nonce : Str) (s : HttpSession)
        → Reaches handler opaque (new_http_session first) s
        → handler req s.nonce ≡ ok (res, nonce)
        → (s.response_queue ≡ []) × Answers req res nonce s
    Reaches-Answers req res first nonce s steps handled =
        let sound : IsSound s = Reaches-IsSound steps (inl (refl, refl, refl)) in
        (empty sound, IsSound-Answers req res nonce s sound handled)
      where
        empty : IsSound s → s.response_queue ≡ []
        empty (inl (e, _, _)) = e
        empty (inr (e, _, _)) = e
