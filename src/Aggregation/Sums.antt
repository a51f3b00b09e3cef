-- ===== src/Aggregation/Sums.antt =====
-- The sum of the devices' power.
use pv_inverter_master.Base.{
  ℕ, ◌+◌, ◌*◌, ◌%◌, ◌^◌, ◌≡◌, ◌≢◌, refl, sym, ap, ◌∙◌, ◌≤◌, true, false, ◌||◌, Option, none, some,
  List, [], ◌∷◌, arith, ltb, leb, ◌==◌, Bool-cases, inl, inr, get_or, length,
}
use pv_inverter_master.Throttle.{Ratio, round_half_even}
use pv_inverter_master.Throttle.Score.{round_half_even-Close}
use pv_inverter_master.Sunspec.{assign}
use pv_inverter_master.Aggregation.{
  Physical, whole, scaled, val, decode_model_103_to_physical, plus, total, aggregate, register,
  encode_aggregated_model_103,
}

-- The registers `r` decode to `p`, with a power in whole watts.
abbrev pub InWatts : List ℕ → Physical → Type 0
InWatts r p =
    (decode_model_103_to_physical r ≡ some p)
    × (get_or r 15 0 ≡ 0)
    × (get_or r 14 0 ≢ 0x8000)
    × (get_or r 14 0 ≢ 0xFFFF)

abbrev pub AllInWatts : List (List ℕ) → List Physical → Type 0
AllInWatts [] [] = Unit
AllInWatts (r ∷ rs) (p ∷ ps) = InWatts r p × AllInWatts rs ps
AllInWatts _ _ = ⊥

-- The sum of the power registers.
abbrev pub watts : List (List ℕ) → ℕ
watts [] = 0
watts (r ∷ rs) = get_or r 14 0 + watts rs

abbrev power_of : Option Physical → Ratio
power_of none = whole 0
power_of (some p) = p.ac_power

decoded_power :
    (r : List ℕ) (p : Physical)
    → decode_model_103_to_physical r ≡ some p
    → (40 ≤ length r) × (p.ac_power ≡ val r 14 15)
unfolding decode_model_103_to_physical
decoded_power r p e = elim (Bool-cases (ltb (length r) 40)) [
  | inl short ↦ absurd (refused short e)
  | inr long ↦ (ground arith, sym (ap power_of e) ∙ accepted long)
]
  where
    refused : ltb (length r) 40 ≡ true → decode_model_103_to_physical r ≡ some p → ⊥
    refused short = rw short (λ k. cc)

    accepted : ltb (length r) 40 ≡ false → power_of (decode_model_103_to_physical r) ≡ val r 14 15
    accepted long = rw long refl

val-whole :
    (r : List ℕ)
    → 40 ≤ length r
    → get_or r 15 0 ≡ 0
    → get_or r 14 0 ≢ 0x8000
    → get_or r 14 0 ≢ 0xFFFF
    → val r 14 15 ≡ whole (get_or r 14 0)
unfolding val scaled
val-whole r long sf a b =
    let inside : (leb (length r) 14 || leb (length r) 15) ≡ false = ground (arith, long) in
    let valid : (get_or r 14 0 == 0x8000 || get_or r 14 0 == 0xFFFF) ≡ false =
      ground (arith, a, b) in
    let one : get_or r 14 0 * 10 ^ 0 ≡ get_or r 14 0 = omega arith in
    rw (inside, valid, sf) (ap whole one)

round_whole : (n : ℕ) → round_half_even (n * 1) 1 ≡ n
round_whole n = let c = round_half_even-Close (n * 1) 1 (omega arith) in omega (arith, c)

watts_of_one : (r : List ℕ) (p : Physical) → InWatts r p → p.ac_power ≡ whole (get_or r 14 0)
watts_of_one r p h = let d = decoded_power r p h.0 in d.1 ∙ val-whole r d.0 h.1 h.2 h.3

watts_of_all :
    (rs : List (List ℕ)) (ps : List Physical)
    → AllInWatts rs ps
    → total (λ d. d.ac_power) ps ≡ whole (watts rs)
unfolding total
watts_of_all [] [] h = refl
watts_of_all [] (p ∷ ps) h = absurd h
watts_of_all (r ∷ rs) [] h = absurd h
watts_of_all (r ∷ rs) (p ∷ ps) h =
    let sum : get_or r 14 0 * 1 + watts rs * 1 ≡ get_or r 14 0 + watts rs = omega arith in
    ap (λ a. plus a (total (λ d. d.ac_power) ps)) (watts_of_one r p h.0)
    ∙ ap (λ t. plus (whole (get_or r 14 0)) t) (watts_of_all rs ps h.1)
    ∙ ap whole sum

-- Where the devices give their AC power in whole watts, the power register of the virtual inverter is the
-- sum of their power registers modulo 65536.
pub power_register :
    (r : List ℕ) (rs : List (List ℕ)) (p : Physical) (ps : List Physical)
    → AllInWatts (r ∷ rs) (p ∷ ps)
    → get_or (encode_aggregated_model_103 (aggregate p ps)) 14 0 ≡ watts (r ∷ rs) % 65536
unfolding encode_aggregated_model_103 assign register aggregate
power_register r rs p ps h =
    ap (λ t. register 1 t) (watts_of_all (r ∷ rs) (p ∷ ps) h)
    ∙ ap (λ n. n % 65536) (round_whole (watts (r ∷ rs)))
