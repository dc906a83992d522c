-- ===== src/Firmware/Gate/Arrival.antt =====
-- A gate that is told to move arrives, within a bounded number of ticks.
use gate_control.Base.{
  ℕ, zero, suc, ◌+◌, ◌*◌, ◌≤◌, ◌<◌, true, false, ◌≡◌, refl, ◌∙◌, ap, inl, inr, arith,
}
use gate_control.Base.Int.{pos}
use gate_control.Base.Outcome.{ok}
use gate_control.Firmware.Float.{one_units, one_float, zero_float}
use gate_control.Firmware.Gate.{
  GateState, raised, raising, lowered, lowering, Gate, tick, raise, lower, get_state,
  finished_moving,
}
use gate_control.Firmware.Gate.Position.{IsSound}
use gate_control.Firmware.Gate.Travel.{least_move, arrived_at, tick_up, tick_down, ticks}

-- Within `limit` ticks the gate arrives in one state, and is in the other at each tick before.
abbrev pub Arrives : ℕ → GateState → GateState → Gate → Type 0
Arrives limit on_way at_end g =
    (j : ℕ) × (0 < j)
    × (j ≤ limit)
    × ((i : ℕ) → i < j → get_state (ticks i g) ≡ ok on_way)
    × (get_state (ticks j g) ≡ ok at_end)
    × (finished_moving (ticks j g) ≡ true)

at_once :
    (limit : ℕ) (on_way at_end : GateState) (g g' : Gate)
    → get_state g ≡ ok on_way
    → (tick g).1 ≡ g'
    → get_state g' ≡ ok at_end
    → finished_moving g' ≡ true
    → Arrives (suc limit) on_way at_end g
at_once limit on_way at_end g g' now e there done =
    (1, omega arith, omega arith, first, ap get_state e ∙ there, ap finished_moving e ∙ done)
  where
    first : (i : ℕ) → i < 1 → get_state (ticks i g) ≡ ok on_way
    first zero h = now
    first (suc i) h = absurd (omega arith)

one_later :
    (limit : ℕ) (on_way at_end : GateState) (g : Gate)
    → get_state g ≡ ok on_way
    → Arrives limit on_way at_end (tick g).1
    → Arrives (suc limit) on_way at_end g
one_later limit on_way at_end g now (j, some_ticks, few, before, there, done) =
    (suc j, omega arith, omega arith, all_before, there, done)
  where
    all_before : (i : ℕ) → i < suc j → get_state (ticks i g) ≡ ok on_way
    all_before zero h = now
    all_before (suc i) h = before i (omega arith)

rises :
    (k n : ℕ) (g : Gate)
    → g.is_changing ≡ true
    → g.is_lowering ≡ false
    → g.state ≡ pos n
    → n ≤ one_units
    → one_units ≤ n + suc k * least_move
    → Arrives (suc k) raising raised g
unfolding get_state
rises zero n g moving way at h near = elim (tick_up g n moving way at h) [
  | inl e ↦
      at_once 0 raising raised g (arrived_at false one_float) (rw (moving, way) refl) e refl refl
  | inr (m, e, far, short) ↦ absurd (omega arith)
]
rises (suc k) n g moving way at h near = elim (tick_up g n moving way at h) [
  | inl e ↦
      at_once (suc k) raising raised g (arrived_at false one_float) (rw (moving, way) refl) e refl
        refl
  | inr (m, e, far, short) ↦
      one_later (suc k) raising raised g (rw (moving, way) refl)
        (rises k m (tick g).1 (rw e refl) (rw e refl) (rw e refl) (omega arith) (omega arith))
]

falls :
    (k n : ℕ) (g : Gate)
    → g.is_changing ≡ true
    → g.is_lowering ≡ true
    → g.state ≡ pos n
    → n ≤ one_units
    → n ≤ suc k * least_move
    → Arrives (suc k) lowering lowered g
unfolding get_state
falls zero n g moving way at h near = elim (tick_down g n moving way at h) [
  | inl e ↦
      at_once 0 lowering lowered g (arrived_at true zero_float) (rw (moving, way) refl) e refl refl
  | inr (m, e, far, short) ↦ absurd (omega arith)
]
falls (suc k) n g moving way at h near = elim (tick_down g n moving way at h) [
  | inl e ↦
      at_once (suc k) lowering lowered g (arrived_at true zero_float) (rw (moving, way) refl) e refl
        refl
  | inr (m, e, far, short) ↦
      one_later (suc k) lowering lowered g (rw (moving, way) refl)
        (falls k m (tick g).1 (rw e refl) (rw e refl) (rw e refl) (omega arith) (omega arith))
]

abbrev pub most_ticks : ℕ
most_ticks = 101

-- A sound gate that is told to rise is raising until, within 101 ticks, it is raised, and has then
-- just finished; told to fall, it is lowering until, within 101 ticks, it is lowered, and has then
-- just finished.
pub raise-Arrives :
    (g : Gate)
    → IsSound g
    → Arrives most_ticks raising raised (raise g) × Arrives most_ticks lowering lowered (lower g)
unfolding raise lower
raise-Arrives g sound =
    let (n, at, h) = sound.within in
    (
      rises 100 n (record g { is_lowering = false; is_changing = true }) refl refl at h
          (omega arith),
      falls 100 n (record g { is_lowering = true; is_changing = true }) refl refl at h
          (omega arith),
    )
