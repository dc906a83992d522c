-- ===== src/Bridge/Liveness.antt =====
-- Which sessions live, in the stores that the handlers make.
use gate_control.Base.{
  nth, modify, nth-modify, ℕ, zero, suc, true, ◌==◌, ==_iff, List, [], ◌∷◌, ◌++◌, some, length, ◌≡◌,
  ◌⊎◌, inl, inr, refl, sym, ap, ◌∙◌, arith, Bool-cases,
}
use gate_control.Base.Outcome.{ok, bind-ok, ok-elim, ◌>>=◌}
use gate_control.Json.{JsonLib}
use gate_control.Message.{JsonMessage, dump_message}
use gate_control.Socket.{Session, is_alive, is_running, queue_message}
use gate_control.Bridge.{alive_in, is_live, send_all}
use gate_control.Bridge.Delivery.{is_live-queue_message}

-- A session with a handler that waits is alive.
pub accepting-is_alive : (s : Session) → s.is_accepting ≡ true → is_alive s ≡ true
unfolding is_alive
accepting-is_alive s h = ground arith

pub reading-is_alive : (s : Session) → s.is_reading ≡ true → is_alive s ≡ true
unfolding is_alive
reading-is_alive s h = ground arith

pub writing-is_alive : (s : Session) → is_running s.write_loop ≡ true → is_alive s ≡ true
unfolding is_alive
writing-is_alive s h = ground arith

-- A step of a session that is alive makes no other alive.
pub is_live-modify :
    (i j : ℕ) (s s' : Session) (store : List Session)
    → nth j store ≡ some s
    → is_alive s ≡ true
    → is_live (modify j (λ _. s') store) i ≡ true
    → is_live store i ≡ true
unfolding is_live
is_live-modify i j s s' store found alive h = elim (Bool-cases (i == j)) [
  | inl same ↦ ap (λ k. alive_in (nth k store)) ((==_iff i j).0 same) ∙ ap alive_in found ∙ alive
  | inr other ↦
      let e : nth i (modify j (λ _. s') store) ≡ nth i store =
        nth-modify i j (λ _. s') store ∙ rw other in
      sym (ap alive_in e) ∙ h
]

pub is_live-append :
    (i : ℕ) (store : List Session) (s : Session)
    → is_live (store ++ s ∷ []) i ≡ true
    → (i ≡ length store) ⊎ (is_live store i ≡ true)
unfolding is_live
is_live-append zero [] s h = inl refl
is_live-append (suc i) [] s h = absurd (cc h)
is_live-append zero (x ∷ store) s h = inr h
is_live-append (suc i) (x ∷ store) s h = elim (is_live-append i store s h) [
  | inl e ↦ inl (ap suc e)
  | inr live ↦ inr live
]

-- The texts that an update queues wake and end no session.
pub send_all-is_live :
    (J : JsonLib) (message : JsonMessage J) (is : List ℕ) (store store' : List Session)
    → send_all J message is store ≡ ok store'
    → (i : ℕ) → is_live store' i ≡ is_live store i
unfolding send_all
send_all-is_live J message [] store store' h i =
    ok-elim (λ st. is_live st i ≡ is_live store i) h refl
send_all-is_live J message (j ∷ is) store store' h i = elim (Bool-cases (is_live store j)) [
  | inl live ↦
      let chain : (dump_message J message >>= λ t.
      send_all J message is (modify j (queue_message t) store))
          ≡ ok store' =
        sym (rw live) ∙ h in
      let (t, _, h') = bind-ok (dump_message J message) _ chain in
      send_all-is_live J message is (modify j (queue_message t) store) store' h' i
      ∙ is_live-queue_message t i j store
  | inr dead ↦ send_all-is_live J message is store store' (sym (rw dead) ∙ h) i
]
