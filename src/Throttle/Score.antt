-- ===== src/Throttle/Score.antt =====
-- How close the rounding comes, and the range of the scores.
use native.Mathlib.Nat.{mod-lt, div-add-mod, mul-add}
use pv_inverter_master.Base.{ℕ, ◌+◌, ◌*◌, ◌/◌, ◌%◌, ◌≤◌, ◌<◌, ◌≡◌, arith, ltb, Bool-cases, inl, inr}
use pv_inverter_master.Throttle.{round_half_even}

-- Rounding to a quotient that is `s` above `q`, where `r` is the remainder at `q`.
abbrev Close : ℕ → ℕ → ℕ → Type 0
Close n d q = (2 * (d * q) ≤ 2 * n + d) × (2 * n ≤ 2 * (d * q) + d)

stay : (n d q r : ℕ) → d * q + r ≡ n → 2 * r ≤ d → Close n d q
stay n d q r e h = (omega arith, omega arith)

step_up : (n d q r : ℕ) → d * q + r ≡ n → d ≤ 2 * r → r < d → Close n d (q + 1)
step_up n d q r e h b =
    let up : d * (q + 1) ≡ d * q + d * 1 = mul-add d q 1 in
    let one : d * 1 ≡ d = omega arith in (omega (arith, up), omega (arith, up))

-- The rounded quotient is at most half a unit away.
pub round_half_even-Close : (n d : ℕ) → 0 < d → Close n d (round_half_even n d)
unfolding round_half_even
round_half_even-Close n d h =
    let e : d * (n / d) + n % d ≡ n = div-add-mod n d in
    let b : n % d < d = mod-lt n h in
    elim (Bool-cases (ltb (2 * (n % d)) d)) [
      | inl low ↦ rw low (stay n d (n / d) (n % d) e (ground arith))
      | inr high ↦ elim (Bool-cases (ltb d (2 * (n % d)))) [
        | inl over ↦ rw (high, over) (step_up n d (n / d) (n % d) e (ground arith) b)
        | inr tie ↦ elim (Bool-cases (ltb (n / d % 2) 1)) [
          | inl even ↦
              let zero_bit : n / d + n / d % 2 ≡ n / d = ground arith in
              rw (high, tie, zero_bit) (stay n d (n / d) (n % d) e (ground arith))
          | inr odd ↦
              let one_bit : n / d + n / d % 2 ≡ n / d + 1 = ground arith in
              rw (high, tie, one_bit) (step_up n d (n / d) (n % d) e (ground arith) b)
        ]
      ]
    ]
