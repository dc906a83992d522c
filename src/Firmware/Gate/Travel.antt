-- ===== src/Firmware/Gate/Travel.antt =====
-- How a moving gate travels: each tick brings it nearer to its end, which it reaches.
use gate_control.Base.{
  ℕ, zero, suc, ◌+◌, ◌-◌, ◌*◌, ◌≤◌, ◌<◌, ◌^◌, Bool, true, false, leb, ◌≡◌, refl, ◌∙◌, ap, ◌⊎◌, inl,
  inr, arith, Bool-cases,
}
use gate_control.Base.Int.{pos, negsuc, minus}
use gate_control.Firmware.Float.{
  Float, round, ◌+F◌, ◌-F◌, one_units, one_float, zero_float, hundredth_units, hundredth_float,
  le_float,
}
use gate_control.Firmware.Float.Laws.{round_bounds}
use gate_control.Firmware.Gate.{Gate, clamped, has_arrived, tick}
use gate_control.Firmware.Gate.Position.{tick_moving}

-- What a tick moves at least, with the error of its rounding.
abbrev pub least_move : ℕ
least_move = 10737354 * 2 ^ 119

rise_at_least :
    (n : ℕ) → n ≤ one_units → (m : ℕ) × (pos n +F hundredth_float ≡ pos m) × (n + least_move ≤ m)
unfolding ◌+F◌
rise_at_least n h =
    let bounds = round_bounds 126 (n + hundredth_units) (omega arith) in
    (round (n + hundredth_units), refl, omega arith)

minus_le : (m : ℕ) → le_float (minus m) zero_float ≡ true
minus_le zero = refl
minus_le (suc m) = refl

arrived_below : (x : Float) → le_float x zero_float ≡ true → has_arrived x ≡ true
arrived_below x h = rw h

clamped_below : (x : Float) → le_float x zero_float ≡ true → clamped x ≡ zero_float
clamped_below (pos n) h = ground arith
clamped_below (negsuc n) h = refl

-- Downwards, or past the end.
fall_at_least :
    (n : ℕ)
    → n ≤ one_units
    → ((m : ℕ) × (pos n -F hundredth_float ≡ pos m) × (m + least_move ≤ n))
      ⊎ (le_float (pos n -F hundredth_float) zero_float ≡ true)
unfolding ◌-F◌
fall_at_least n h = elim (Bool-cases (leb hundredth_units n)) [
  | inl t ↦
      let bounds = round_bounds 126 (n - hundredth_units) (omega arith) in
      let le : hundredth_units ≤ n = ground arith in
      inl (round (n - hundredth_units), rw t refl, omega arith)
  | inr f ↦ inr (rw f (minus_le (round (suc (hundredth_units - n - 1)))))
]

-- A gate on its way, and one that has just arrived.
abbrev pub moving_at : Bool → Float → Gate
moving_at is_lowering state = record {
  just_finished = false;
  is_lowering = is_lowering;
  is_changing = true;
  state = state;
}

abbrev pub arrived_at : Bool → Float → Gate
arrived_at is_lowering state = record {
  just_finished = true;
  is_lowering = is_lowering;
  is_changing = false;
  state = state;
}

-- One tick of a gate that goes up: it arrives, or is higher.
pub tick_up :
    (g : Gate) (n : ℕ)
    → g.is_changing ≡ true
    → g.is_lowering ≡ false
    → g.state ≡ pos n
    → n ≤ one_units
    → ((tick g).1 ≡ arrived_at false one_float)
      ⊎ ((m : ℕ) × ((tick g).1 ≡ moving_at false (pos m)) × (n + least_move ≤ m) × (m < one_units))
tick_up g n moving up at h =
    let (m, e, far) = rise_at_least n h in
    elim (Bool-cases (has_arrived (pos m))) [
      | inl t ↦
          let over : clamped (pos m) ≡ one_float = ground arith in
          inl (ap (λ p. p.1) (tick_moving g moving) ∙ rw (up, at, e, t, over) refl)
      | inr f ↦ inr (
        m,
        ap (λ p. p.1) (tick_moving g moving) ∙ rw (up, at, e, f, moving) refl,
        far,
        ground arith,
      )
    ]

pub tick_down :
    (g : Gate) (n : ℕ)
    → g.is_changing ≡ true
    → g.is_lowering ≡ true
    → g.state ≡ pos n
    → n ≤ one_units
    → ((tick g).1 ≡ arrived_at true zero_float)
      ⊎ ((m : ℕ) × ((tick g).1 ≡ moving_at true (pos m)) × (m + least_move ≤ n) × (0 < m))
tick_down g n moving down at h = elim (fall_at_least n h) [
  | inl (m, e, far) ↦ elim (Bool-cases (has_arrived (pos m))) [
    | inl t ↦
        let under : clamped (pos m) ≡ zero_float = ground arith in
        inl (ap (λ p. p.1) (tick_moving g moving) ∙ rw (down, at, e, t, under) refl)
    | inr f ↦ inr (
      m,
      ap (λ p. p.1) (tick_moving g moving) ∙ rw (down, at, e, f, moving) refl,
      far,
      ground arith,
    )
  ]
  | inr past ↦
      let x = pos n -F hundredth_float in
      inl (
        ap (λ p. p.1) (tick_moving g moving)
        ∙ rw (down, at) (rw (arrived_below x past, clamped_below x past) refl))
]

-- The gate after some ticks.
abbrev pub ticks : ℕ → Gate → Gate
ticks zero g = g
ticks (suc k) g = ticks k (tick g).1
