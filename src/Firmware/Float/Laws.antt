-- ===== src/Firmware/Float/Laws.antt =====
-- How far rounding moves a number, and that the fuel of `ulp` is enough.
use gate_control.Base.{ℕ, zero, suc, ◌+◌, ◌*◌, ◌/◌, ◌%◌, ◌^◌, ◌≤◌, ◌<◌, ◌≡◌, arith}
use gate_control.Firmware.Float.{ulp, nearest, binades, round}

pow_suc : (k : ℕ) → 2 ^ suc k ≡ 2 * 2 ^ k
pow_suc k = grind arith

pow_pos : (k : ℕ) → 1 ≤ 2 ^ k
pow_pos zero = omega arith
pow_pos (suc k) = omega (arith, pow_suc k, pow_pos k)

ulp_pos : (f n : ℕ) → 1 ≤ ulp f n
unfolding ulp
ulp_pos zero n = omega arith
ulp_pos (suc f) n = ground (arith, ulp_pos f (n / 2))

-- Below 2 ^ (24 + k) the floats are at most 2 ^ k units apart.
ulp-le : (f k n : ℕ) → n < 16777216 * 2 ^ k → ulp f n ≤ 2 ^ k
unfolding ulp
ulp-le zero k n h = pow_pos k
ulp-le (suc f) zero n h = ground arith
ulp-le (suc f) (suc k) n h =
    let e = pow_suc k in let p = pow_pos k in ground (arith, ulp-le f k (n / 2) (omega arith))

-- Fuel for every exponent up to that of the number: it has at most 24 significant bits.
pub ulp_covers : (k n : ℕ) → n < 16777216 * 2 ^ k → n < 16777216 * ulp k n
unfolding ulp
ulp_covers zero n h = ground arith
ulp_covers (suc k) n h = let e = pow_suc k in ground (arith, ulp_covers k (n / 2) (omega arith))

near_above : (u r n : ℕ) → r < u → r ≤ n → 2 * nearest u r n ≤ 2 * n + u
near_above u r n small part = ground arith

near_below : (u r n : ℕ) → r < u → r ≤ n → 2 * n ≤ 2 * nearest u r n + u
near_below u r n small part = ground arith

mod_bounds : (u n : ℕ) → 1 ≤ u → (n % u < u) × (n % u ≤ n)
mod_bounds u n h = grind arith

-- Rounding a number below 2 ^ (24 + k) moves it by at most half of 2 ^ k.
pub round_bounds :
    (k n : ℕ) → n < 16777216 * 2 ^ k → (2 * round n ≤ 2 * n + 2 ^ k) × (2 * n ≤ 2 * round n + 2 ^ k)
unfolding round
round_bounds k n h =
    let u = ulp binades n in
    let le : u ≤ 2 ^ k = ulp-le binades k n h in
    let (small, part) = mod_bounds u n (ulp_pos binades n) in
    let above = near_above u (n % u) n small part in
    let below = near_below u (n % u) n small part in (omega arith, omega arith)
