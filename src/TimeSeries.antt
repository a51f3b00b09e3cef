-- ===== src/TimeSeries.antt =====
-- src/pv_inverter_proxy/timeseries.py: the ring buffer of a dashboard metric. A value is a natural
-- number and a time a whole number of milliseconds; neither is computed with here.
use pv_inverter_master.Base.{
  ℕ, ◌+◌, ◌-◌, ◌≤◌, ◌≡◌, refl, Option, none, some, List, [], ◌∷◌, ◌++◌, length, drop, length-append,
  ap, ◌∙◌, arith,
}
use pv_inverter_master.Deque.{push, push_all, push_all-suffix, drop-append}

pub record Sample : Type 0 where
  pub timestamp : ℕ
  pub value : ℕ

pub record TimeSeriesBuffer : Type 0 where
  pub maxlen : ℕ
  pub buf : List Sample

-- `__init__`
unfoldable pub new : ℕ → TimeSeriesBuffer
new max_seconds = record { maxlen = max_seconds + 10; buf = [] }

-- `append`, at the time that is given or that the clock shows.
unfoldable pub append : ℕ → ℕ → TimeSeriesBuffer → TimeSeriesBuffer
append value ts b = record b {
  buf = push b.maxlen (record { timestamp = ts; value = value }) b.buf;
}

unfoldable pub get_all : TimeSeriesBuffer → List Sample
get_all b = b.buf

-- `self._buf[-1] if self._buf else None`
unfoldable pub last_sample : List Sample → Option Sample
last_sample [] = none
last_sample (x ∷ []) = some x
last_sample (x ∷ y ∷ xs) = last_sample (y ∷ xs)

unfoldable pub latest : TimeSeriesBuffer → Option Sample
unfolding last_sample
latest b = last_sample b.buf

unfoldable pub append_all : List Sample → TimeSeriesBuffer → TimeSeriesBuffer
append_all [] b = b
append_all (x ∷ xs) b = append_all xs (append x.value x.timestamp b)

last_sample-append : (x : Sample) (xs : List Sample) → last_sample (xs ++ x ∷ []) ≡ some x
unfolding last_sample
last_sample-append x [] = refl
last_sample-append x (y ∷ []) = refl
last_sample-append x (y ∷ z ∷ xs) = last_sample-append x (z ∷ xs)

-- After an append to a buffer with room for at least one sample, the latest sample is the new one.
latest-append :
    (value ts : ℕ) (b : TimeSeriesBuffer)
    → 1 ≤ b.maxlen
    → latest (append value ts b) ≡ some (record { timestamp = ts; value = value })
unfolding latest append push
latest-append value ts b room =
    let x : Sample = record { timestamp = ts; value = value } in
    let over : ℕ = length (b.buf ++ x ∷ []) - b.maxlen in
    rw (← drop-append over b.buf (x ∷ []) (omega (arith, length-append {0} b.buf (x ∷ []))))
      (last_sample-append x (drop over b.buf))

append_all-push_all :
    (xs : List Sample) (b : TimeSeriesBuffer)
    → (get_all (append_all xs b) ≡ push_all b.maxlen xs b.buf)
      × ((append_all xs b).maxlen ≡ b.maxlen)
unfolding append_all append get_all push_all
append_all-push_all [] b = (refl, refl)
append_all-push_all (x ∷ xs) b = append_all-push_all xs (append x.value x.timestamp b)

-- A buffer for s seconds to which samples were appended holds the last s + 10 of them in order, all
-- of them if there are no more than that, and the latest one is the one appended last.
pub get_all-append_all :
    (s : ℕ) (xs : List Sample) (x : Sample)
    → let b = append_all xs (new s) in
      (get_all b ≡ drop (length xs - (s + 10)) xs)
      × (length xs ≤ s + 10 → get_all b ≡ xs)
      × (latest (append x.value x.timestamp b) ≡ some x)
unfolding new
get_all-append_all s xs x =
    let r = append_all-push_all xs (new s) in
    let kept = r.0 ∙ push_all-suffix (s + 10) xs [] (omega arith) in
    (
      kept,
      λ few. let e : length xs - (s + 10) ≡ 0 = omega arith in kept ∙ ap (λ k. drop k xs) e,
      latest-append x.value x.timestamp (append_all xs (new s)) (omega (arith, r.1)),
    )
