-- ===== src/Throttle.antt =====
-- `ThrottleCaps` and `compute_throttle_score` of src/pv_inverter_proxy/plugin.py. The source computes
-- with floats; here the numbers are exact: durations in whole milliseconds, or a ratio of them, and a
-- score in tenths. The common denominator of the terms is 150000.
pub mod Score
use pv_inverter_master.Base.{
  ℕ, suc, ◌+◌, ◌-◌, ◌*◌, ◌/◌, ◌%◌, min, Bool, true, false, Option, none, some, ltb, if◌then◌else◌,
}

-- `round(n / d)`, a tie to the even side.
unfoldable pub round_half_even : ℕ → ℕ → ℕ
round_half_even n d =
    let q = n / d in
    let r = n % d in if ltb (2 * r) d then q else if ltb d (2 * r) then q + 1 else q + q % 2

pub data ThrottleMode : Type 0 where
  proportional binary unthrottled : ThrottleMode

pub record Ratio : Type 0 where
  pub num : ℕ
  pub den : ℕ

pub record ThrottleCaps : Type 0 where
  pub mode : ThrottleMode
  pub response_time : Ratio
  pub cooldown : ℕ
  pub startup_delay : ℕ

-- The score before rounding, times 150000 and the denominator of the response time. The penalties are
-- at most 3 and the base at least 3, so no difference is negative; the response bonus stops at 0.
unfoldable pub raw_score : ℕ → ThrottleCaps → ℕ
raw_score base c =
    let den = c.response_time.den in
    let bonus = 45 * (10000 * den - c.response_time.num) in
    let cooldown_penalty = min (300000 * den) (c.cooldown * den) in
    let startup_penalty = min (150000 * den) (5 * c.startup_delay * den) in
    min (1500000 * den) (base * 150000 * den + bonus - cooldown_penalty - startup_penalty)

abbrev pub base_of : ThrottleMode → ℕ
base_of proportional = 7
base_of binary = 3
base_of unthrottled = 0

abbrev pub is_unthrottled : ThrottleMode → Bool
is_unthrottled unthrottled = true
is_unthrottled _ = false

-- `compute_throttle_score`, in tenths.
unfoldable pub compute_throttle_score : ThrottleCaps → ℕ
unfolding raw_score round_half_even
compute_throttle_score c =
    if is_unthrottled c.mode
    then 0
    else round_half_even (raw_score (base_of c.mode) c) (15000 * c.response_time.den)
