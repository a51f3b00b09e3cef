-- ===== src/Updater/RateLimit.antt =====
-- `_normalize_ip` and `RateLimiter` of updater/security.py. Times are whole milliseconds of a clock
-- that does not run backwards; the window is given in milliseconds too.
pub mod Sliding
mod Eviction
use pv_inverter_master.Base.{
  ℕ, ◌+◌, ◌-◌, ◌/◌, max, String, Bool, true, false, ◌||◌, Option, none, some, List, [], ◌∷◌, leb,
  if◌then◌else◌, Dict, lookup, insert, str_eq,
}
use pv_inverter_master.Updater.Texts.{strip_prefix, is_empty}

abbrev or_raw : String → Option String → String
or_raw raw none = raw
or_raw raw (some rest) = rest

-- `_normalize_ip`
unfoldable pub normalize_ip : Option String → String
normalize_ip none = "unknown"
normalize_ip (some raw) =
    if is_empty raw then "unknown" else or_raw raw (strip_prefix "::ffff:" raw)

pub record RateLimiter : Type 0 where
  pub window : ℕ
  pub last_seen : Dict ℕ

-- RATE_LIMIT_WINDOW_SECONDS
abbrev pub default_window : ℕ
default_window = 60000

-- `now - t >= window`
abbrev pub is_over : ℕ → ℕ → ℕ → Bool
is_over window now t = leb window (now - t)

-- The eviction of the stale entries.
pub evict : ℕ → ℕ → Dict ℕ → Dict ℕ
evict window now [] = []
evict window now ((k, t) ∷ d) =
    let rest = evict window now d in if is_over window now t then rest else (k, t) ∷ rest

-- `max(1, int(remaining))`, in seconds.
abbrev pub retry_after : ℕ → ℕ → ℕ → ℕ
retry_after window now last = max 1 ((window - (now - last)) / 1000)

pub decide : Option ℕ → String → ℕ → RateLimiter → (Bool × ℕ) × RateLimiter
decide none k now l = ((true, 0), record l { last_seen = insert k now l.last_seen })
decide (some last) k now l =
    if is_over l.window now last
    then ((true, 0), record l { last_seen = insert k now l.last_seen })
    else ((false, retry_after l.window now last), l)

-- `check`: whether the request is accepted, and after how many seconds to try again.
unfoldable pub check : ℕ → Option String → RateLimiter → (Bool × ℕ) × RateLimiter
unfolding evict decide
check now ip l =
    let kept = evict l.window now l.last_seen in
    let k = normalize_ip ip in decide (lookup k kept) k now (record l { last_seen = kept })
