-- ===== src/Bridge/Effects.antt =====
-- What `common_state::update` changes, as far as the invariants ask, and lists changed at a place.
use gate_control.Base.{
  nth, modify, ℕ, zero, suc, true, ◌==◌, List, [], ◌∷◌, ◌++◌, Option, none, some, length,
  if◌then◌else◌, ◌≡◌, ◌⊎◌, inl, inr, refl, sym, ap, ◌∙◌, arith, Bool-cases,
}
use gate_control.Base.Outcome.{ok, bind-ok, ok-elim, ◌>>=◌}
use gate_control.Json.{JsonLib}
use gate_control.Message.{JsonMessage, dump_message}
use gate_control.Socket.{Session, queue_message}
use gate_control.Bridge.{
  is_live, remove_dead, World, send_all, is_result, pop_to, update_with, update_sessions, update,
}

module _ {ℓ} {A : Type ℓ} where
  pub length-modify : (i : ℕ) (f : A → A) (xs : List A) → length (modify i f xs) ≡ length xs
  length-modify i f [] = refl
  length-modify zero f (x ∷ xs) = refl
  length-modify (suc i) f (x ∷ xs) = ap suc (length-modify i f xs)

-- A fact about the session at a place, in each of the stores that the handlers make.
abbrev pub at_place {ℓ} : {A : Type ℓ} → (Session → A) → ℕ → List Session → Option A
at_place f i [] = none
at_place f zero (s ∷ store) = some (f s)
at_place f (suc i) (s ∷ store) = at_place f i store

module _ {ℓ} {A : Type ℓ} (f : Session → A) where
  pub at_place-append :
      (i : ℕ) (store : List Session) (s : Session)
      → at_place f i (store ++ s ∷ [])
        ≡ (if i == length store then some (f s) else at_place f i store)
  at_place-append zero [] s = ground arith
  at_place-append (suc i) [] s = ground arith
  at_place-append zero (x ∷ store) s = ground arith
  at_place-append (suc i) (x ∷ store) s = ground (arith, at_place-append i store s)

  pub at_place-nth :
      (i : ℕ) (store : List Session) (s : Session)
      → nth i store ≡ some s
      → at_place f i store ≡ some (f s)
  at_place-nth i [] s h = absurd (cc h)
  at_place-nth zero (x ∷ store) s h = let e : x ≡ s = cc in ap (λ s. some (f s)) e
  at_place-nth (suc i) (x ∷ store) s h = at_place-nth i store s h

  -- A function that keeps the fact may be applied anywhere.
  pub at_place-modify :
      (i j : ℕ) (g : Session → Session) (store : List Session)
      → ((s : Session) → nth j store ≡ some s → f (g s) ≡ f s)
      → at_place f i (modify j g store) ≡ at_place f i store
  at_place-modify i j g [] keeps = refl
  at_place-modify zero zero g (x ∷ store) keeps = ap some (keeps x refl)
  at_place-modify zero (suc j) g (x ∷ store) keeps = refl
  at_place-modify (suc i) zero g (x ∷ store) keeps = refl
  at_place-modify (suc i) (suc j) g (x ∷ store) keeps = at_place-modify i j g store keeps

module _ (J : JsonLib) where
  pub send_all-permissions :
      (message : JsonMessage J) (is : List ℕ) (store store' : List Session)
      → send_all J message is store ≡ ok store'
      → (length store' ≡ length store)
        × ((i : ℕ) → at_place (λ s. s.permissions) i store' ≡ at_place (λ s. s.permissions) i store)
  unfolding send_all
  send_all-permissions message [] store store' h =
      ok-elim
        (λ st.
          (length st ≡ length store)
          × ((i : ℕ) → at_place (λ s. s.permissions) i st ≡ at_place (λ s. s.permissions) i store))
        h (refl, λ i. refl)
  send_all-permissions message (j ∷ is) store store' h = elim (Bool-cases (is_live store j)) [
    | inl live ↦
        let chain : (dump_message J message >>= λ t.
        send_all J message is (modify j (queue_message t) store))
            ≡ ok store' =
          sym (rw live) ∙ h in
        let (t, dumped, h') = bind-ok (dump_message J message) _ chain in
        let (size, same) =
          send_all-permissions message is (modify j (queue_message t) store) store' h' in
        (
          size ∙ length-modify j (queue_message t) store,
          λ i.
              same i
              ∙ at_place-modify (λ s. s.permissions) i j (queue_message t) store
                  (λ s _. unfold queue_message in refl),
        )
    | inr dead ↦ send_all-permissions message is store store' (sym (rw dead) ∙ h)
  ]

  -- `update` prunes the pointers, or does so and takes a result out of the queue.
  abbrev pub Updates : World J → World J → Type 0
  Updates w w' =
      ((w' ≡ w) × (w.sessions ≡ []))
      ⊎ ((w' ≡ record w { sessions = remove_dead w.store w.sessions })
          ⊎ ((message : JsonMessage J) × (rest : List (JsonMessage J)) × (store : List Session)
              × (w.messenger.incoming_message_queue ≡ message ∷ rest)
              × (is_result J message.type ≡ true)
              × (send_all J message (remove_dead w.store w.sessions) w.store ≡ ok store)
              × (w' ≡ record w {
                store = store;
                sessions = remove_dead w.store w.sessions;
                messenger = record w.messenger { incoming_message_queue = rest };
              })))

  update_with-Updates :
      (queue : List (JsonMessage J)) (w w' : World J)
      → w.messenger.incoming_message_queue ≡ queue
      → update_with J queue (record w { sessions = remove_dead w.store w.sessions }) ≡ ok w'
      → Updates w w'
  update_with-Updates [] w w' e h = ok-elim (Updates w) h (inr (inl refl))
  update_with-Updates (message ∷ rest) w w' e h = elim (Bool-cases (is_result J message.type)) [
    | inl r ↦
        let chain : (send_all J message (remove_dead w.store w.sessions) w.store >>= λ store.
        ok (pop_to J store rest (record w { sessions = remove_dead w.store w.sessions })))
            ≡ ok w' =
          sym (rw r) ∙ h in
        let (store, sent, h') =
          bind-ok (send_all J message (remove_dead w.store w.sessions) w.store) _ chain in
        ok-elim (Updates w) h' (inr (inr (message, rest, store, e, r, sent, refl)))
    | inr r ↦
        let same : update_with J (message ∷ rest)
              (record w { sessions = remove_dead w.store w.sessions })
            ≡ ok (record w { sessions = remove_dead w.store w.sessions }) =
          rw r in
        ok-elim (Updates w) (sym same ∙ h) (inr (inl refl))
  ]

  length-none : (is : List ℕ) → (length is == 0) ≡ true → is ≡ []
  length-none [] h = refl
  length-none (i ∷ is) h = absurd (ground arith)

  pub update-Updates : (w w' : World J) → update J w ≡ ok w' → Updates w w'
  unfolding update
  update-Updates w w' h = elim (Bool-cases (length w.sessions == 0)) [
    | inl nobody ↦
        let e : update J w ≡ ok w = rw nobody in
        ok-elim (Updates w) (sym e ∙ h) (inl (refl, length-none w.sessions nobody))
    | inr somebody ↦
        let e : update J w ≡ update_sessions J w = rw somebody in
        update_with-Updates w.messenger.incoming_message_queue w w' refl (sym e ∙ h)
  ]
