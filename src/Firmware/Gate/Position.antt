-- ===== src/Firmware/Gate/Position.antt =====
-- Where a gate can stand: between down and up, and at one of the two when it is at rest.
use gate_control.Base.{ℕ, ◌≤◌, true, false, ◌≡◌, refl, ◌⊎◌, inl, inr, arith, Bool-cases}
use gate_control.Base.Int.{pos, negsuc}
use gate_control.Base.Outcome.{ok}
use gate_control.Firmware.Float.{Float, one_units, one_float, zero_float}
use gate_control.Firmware.Gate.{
  GateState, raised, raising, lowered, lowering, Gate, new_gate, clamped, has_arrived, moved,
  settle, clear_finished, tick, lower, raise, get_state,
}

-- From down to up.
abbrev pub Within : Float → Type 0
Within s = (n : ℕ) × (s ≡ pos n) × (n ≤ one_units)

-- Down, or up.
abbrev pub AtEnd : Float → Type 0
AtEnd s = (s ≡ zero_float) ⊎ (s ≡ one_float)

pub record IsSound (g : Gate) : Type 0 where
  pub within : Within g.state
  pub at_end : g.is_changing ≡ false → AtEnd g.state

pub new_gate-IsSound : IsSound new_gate
new_gate-IsSound = record { within = (0, refl, omega arith); at_end = λ _. inl refl }

arrived : (x : Float) → has_arrived x ≡ true → AtEnd (clamped x)
arrived (pos n) h = ground arith
arrived (negsuc n) h = inl refl

AtEnd-Within : (x : Float) → AtEnd x → Within x
AtEnd-Within x (inl e) = (0, e, omega arith)
AtEnd-Within x (inr e) = (one_units, e, omega arith)

on_the_way : (x : Float) → has_arrived x ≡ false → Within x
on_the_way (pos n) h = (n, refl, ground arith)
on_the_way (negsuc n) h = absurd (ground arith)

settle-IsSound : (g : Gate) → g.is_changing ≡ true → IsSound (settle g)
settle-IsSound g moving = elim (Bool-cases (has_arrived g.state)) [
  | inl t ↦ rw t (record {
    within = AtEnd-Within (clamped g.state) (arrived g.state t);
    at_end = λ _. arrived g.state t;
  })
  | inr f ↦
      rw f (record { within = on_the_way g.state f; at_end = λ rest. absurd (cc (moving, rest)) })
]

cleared : (g : Gate) → clear_finished g ≡ record g { just_finished = false }
cleared g = elim (Bool-cases g.just_finished) [ inl t ↦ rw t refl | inr f ↦ rw f refl ]

-- `tick` clears `just_finished`, set or not.
pub tick_at_rest :
    (g : Gate) → g.is_changing ≡ false → tick g ≡ (false, record g { just_finished = false })
unfolding tick
tick_at_rest g rest = rw (cleared g, rest) refl

pub tick_moving :
    (g : Gate)
    → g.is_changing ≡ true
    → tick g
      ≡ (true, settle (record g { just_finished = false; state = moved g.is_lowering g.state }))
unfolding tick
tick_moving g moving = rw (cleared g, moving) refl

pub tick-IsSound : (g : Gate) → IsSound g → IsSound (tick g).1
tick-IsSound g sound = elim (Bool-cases g.is_changing) [
  | inl t ↦
      let g' : Gate = record g { just_finished = false; state = moved g.is_lowering g.state } in
      rw (tick_moving g t) (settle-IsSound g' t)
  | inr f ↦ rw (tick_at_rest g f) (record { within = sound.within; at_end = λ _. sound.at_end f })
]

pub raise-IsSound : (g : Gate) → IsSound g → IsSound (raise g)
unfolding raise
raise-IsSound g sound = record { within = sound.within; at_end = λ rest. absurd (cc rest) }

pub lower-IsSound : (g : Gate) → IsSound g → IsSound (lower g)
unfolding lower
lower-IsSound g sound = record { within = sound.within; at_end = λ rest. absurd (cc rest) }

-- A sound gate has a state, so `get_state` never runs off its end.
pub get_state_defined : (g : Gate) → IsSound g → (s : GateState) × (get_state g ≡ ok s)
unfolding get_state
get_state_defined g sound = elim (Bool-cases g.is_changing) [
  | inl t ↦ elim (Bool-cases g.is_lowering) [
    | inl down ↦ (lowering, rw (t, down))
    | inr up ↦ (raising, rw (t, up))
  ]
  | inr f ↦ elim (sound.at_end f) [ inl e ↦ (lowered, rw (f, e)) | inr e ↦ (raised, rw (f, e)) ]
]
