-- ===== src/Bridge/Pointers.antt =====
-- The pointers that the shared state keeps.
use gate_control.Base.{
  nth, some, ap, ◌∙◌, true, ℕ, ◌<◌, [], ◌∷◌, ◌++◌, length, length-append, ◌≡◌, inl, inr, sym, subst,
  All-append, arith, Bool-cases,
}
use gate_control.Base.Text.{Str}
use gate_control.Json.{JsonLib}
use gate_control.AuthTable.Types.{AuthTable}
use gate_control.Base.Outcome.{ok}
use gate_control.Messenger.{Messenger}
use gate_control.Socket.{Session, is_alive, is_running}
use gate_control.Bridge.{is_live, remove_dead, World, add_session, update}
use gate_control.Bridge.Delivery.{is_member, Distinct, remove_dead-Distinct, is_member-remove_dead}
use gate_control.Bridge.Members.{
  Below, Below-le, remove_dead-Below, append-Distinct, is_member-first, is_member-last,
}
use gate_control.Bridge.Liveness.{
  accepting-is_alive, reading-is_alive, writing-is_alive, is_live-modify, is_live-append,
  send_all-is_live,
}
use gate_control.Bridge.Effects.{length-modify, send_all-permissions, Updates, update-Updates}
use gate_control.Bridge.Steps.{
  Step, Reaches, connect, accepted, client_read, client_poll, client_written, updated,
  update_raised, port_read, port_poll, port_written, port_raised, port_written_raised, start, next,
  set_session, set_messenger,
}

module _ (J : JsonLib) (H : Str → Str) (auth_table : AuthTable) (opaque : Str) where
  -- No two pointers are to one session, each is to a session that was made, and every session that
  -- lives is pointed to.
  pub record IsWellFormed (w : World J) : Type 0 where
    pub distinct : Distinct w.sessions
    pub made : Below (length w.store) w.sessions
    pub live_held : (i : ℕ) → is_live w.store i ≡ true → is_member i w.sessions ≡ true

  add_session-IsWellFormed :
      (w : World J) (s : Session) → IsWellFormed w → IsWellFormed (add_session J s w)
  unfolding add_session
  add_session-IsWellFormed w s wf =
      let larger : length w.store < length (w.store ++ s ∷ []) =
        omega (arith, length-append w.store (s ∷ [])) in
      record {
        distinct = append-Distinct (length w.store) w.sessions wf.made wf.distinct;
        made =
            All-append (λ i. i < length (w.store ++ s ∷ [])) w.sessions (length w.store ∷ [])
              (Below-le (length w.store) (length (w.store ++ s ∷ [])) w.sessions
                (omega (arith, larger)) wf.made)
              (larger, tt);
        live_held = λ i live. elim (is_live-append i w.store s live) [
          | inl new ↦ is_member-last i (length w.store) w.sessions new
          | inr old ↦ is_member-first i (length w.store) w.sessions (wf.live_held i old)
        ];
      }

  set_session-IsWellFormed :
      (i : ℕ) (s s' : Session) (w : World J)
      → nth i w.store ≡ some s
      → is_alive s ≡ true
      → IsWellFormed w
      → IsWellFormed (set_session J H auth_table opaque i s' w)
  set_session-IsWellFormed i s s' w found alive wf = record {
    distinct = wf.distinct;
    made = subst (λ n. Below n w.sessions) (sym (length-modify i (λ _. s') w.store)) wf.made;
    live_held = λ j live. wf.live_held j (is_live-modify j i s s' w.store found alive live);
  }

  remove_dead-IsWellFormed :
      (w : World J)
      → IsWellFormed w
      → IsWellFormed (record w { sessions = remove_dead w.store w.sessions })
  remove_dead-IsWellFormed w wf = record {
    distinct = remove_dead-Distinct w.store w.sessions wf.distinct;
    made = remove_dead-Below (length w.store) w.store w.sessions wf.made;
    live_held =
        λ i live. is_member-remove_dead w.store i w.sessions ∙ rw (wf.live_held i live, live);
  }

  -- Each pointer is to a session that lives, and each such session is pointed to.
  abbrev pub HoldsTheLiving : World J → Type 0
  HoldsTheLiving w = (i : ℕ) → is_member i w.sessions ≡ is_live w.store i

  remove_dead-HoldsTheLiving :
      (w : World J)
      → IsWellFormed w
      → HoldsTheLiving (record w { sessions = remove_dead w.store w.sessions })
  remove_dead-HoldsTheLiving w wf i = elim (Bool-cases (is_live w.store i)) [
    | inl live ↦ is_member-remove_dead w.store i w.sessions ∙ rw (wf.live_held i live, live)
    | inr dead ↦ is_member-remove_dead w.store i w.sessions ∙ ground (arith, dead)
  ]

  Updates-IsWellFormed :
      (w w' : World J) → Updates J w w' → IsWellFormed w → IsWellFormed w' × HoldsTheLiving w'
  Updates-IsWellFormed w w' (inl (e, nobody)) wf =
      subst (λ v. IsWellFormed v × HoldsTheLiving v) (sym e)
        (
          wf,
          λ i. elim (Bool-cases (is_live w.store i)) [
            | inl live ↦ wf.live_held i live ∙ sym live
            | inr dead ↦ ap (is_member i) nobody ∙ sym dead
          ],
        )
  Updates-IsWellFormed w w' (inr (inl e)) wf =
      subst (λ v. IsWellFormed v × HoldsTheLiving v) (sym e)
        (remove_dead-IsWellFormed w wf, remove_dead-HoldsTheLiving w wf)
  Updates-IsWellFormed w w' (inr (inr (message, rest, store, _, _, sent, e))) wf =
      let (size, _) = send_all-permissions J message _ w.store store sent in
      let same = send_all-is_live J message _ w.store store sent in
      let left = remove_dead-IsWellFormed w wf in
      subst (λ v. IsWellFormed v × HoldsTheLiving v) (sym e)
        (
          record {
            distinct = left.distinct;
            made = subst (λ n. Below n (remove_dead w.store w.sessions)) (sym size) left.made;
            live_held = λ i live. left.live_held i (sym (same i) ∙ live);
          },
          λ i. remove_dead-HoldsTheLiving w wf i ∙ sym (same i),
        )

  messenger-IsWellFormed :
      (m : Messenger J) (w : World J)
      → IsWellFormed w
      → IsWellFormed (set_messenger J H auth_table opaque m w)
  messenger-IsWellFormed m w wf = record {
    distinct = wf.distinct;
    made = wf.made;
    live_held = wf.live_held;
  }

  Step-IsWellFormed :
      {w w' : World J} → Step J H auth_table opaque w w' → IsWellFormed w → IsWellFormed w'
  Step-IsWellFormed {w} (connect {s = s} _ _ _ _ e) wf =
      subst IsWellFormed (sym e) (add_session-IsWellFormed w s wf)
  Step-IsWellFormed {w} (accepted {s = s} i _ found open_ e) wf =
      subst IsWellFormed (sym e)
        (set_session-IsWellFormed i s _ w found (accepting-is_alive s open_) wf)
  Step-IsWellFormed {w} (client_read {s = s} {m = m} i _ found reads _ e) wf =
      subst IsWellFormed (sym e) (
        messenger-IsWellFormed m _
          (set_session-IsWellFormed i s _ w found (reading-is_alive s reads) wf))
  Step-IsWellFormed {w} (client_poll {s = s} i found polls e) wf =
      subst IsWellFormed (sym e)
        (set_session-IsWellFormed i s _ w found (writing-is_alive s (ap is_running polls)) wf)
  Step-IsWellFormed {w} (client_written {s = s} i _ found writes e) wf =
      subst IsWellFormed (sym e)
        (set_session-IsWellFormed i s _ w found (writing-is_alive s (ap is_running writes)) wf)
  Step-IsWellFormed {w} {w'} (updated _ e) wf =
      (Updates-IsWellFormed w w' (update-Updates J w w' e) wf).0
  Step-IsWellFormed {w} (update_raised _ _ e) wf =
      let left = remove_dead-IsWellFormed w wf in
      subst IsWellFormed (sym e)
        (record { distinct = left.distinct; made = left.made; live_held = left.live_held })
  Step-IsWellFormed {w} (port_read _ _ _ e) wf =
      subst IsWellFormed (sym e) (messenger-IsWellFormed _ w wf)
  Step-IsWellFormed {w} (port_poll _ _ e) wf =
      subst IsWellFormed (sym e) (messenger-IsWellFormed _ w wf)
  Step-IsWellFormed {w} (port_written _ _ _ e) wf =
      subst IsWellFormed (sym e) (messenger-IsWellFormed _ w wf)
  Step-IsWellFormed {w} (port_raised _ _ e) wf =
      subst IsWellFormed (sym e) (messenger-IsWellFormed _ w wf)
  Step-IsWellFormed {w} (port_written_raised _ _ e) wf =
      subst IsWellFormed (sym e) (messenger-IsWellFormed _ w wf)

  -- Where the shared state points to no session twice, only to sessions that were made, and to
  -- every session that lives, as at the start, it does so however the server runs on. After an
  -- `update` that returns, it points to the sessions that live, and to no other.
  pub Reaches-IsWellFormed :
      {w w' : World J}
      → Reaches J H auth_table opaque w w'
      → IsWellFormed w
      → IsWellFormed w' × ((w'' : World J) → update J w' ≡ ok w'' → HoldsTheLiving w'')
  Reaches-IsWellFormed {w} {w'} steps wf =
      let kept = Reaches-kept steps wf in
      (kept, λ w'' e. (Updates-IsWellFormed w' w'' (update-Updates J w' w'' e) kept).1)
    where
      Reaches-kept :
          {u v : World J} → Reaches J H auth_table opaque u v → IsWellFormed u → IsWellFormed v
      Reaches-kept start h = h
      Reaches-kept (next before step) h = Step-IsWellFormed step (Reaches-kept before h)
