-- ===== src/Aggregation/Tests.antt =====
-- The sum of two devices that exceeds a register.
use pv_inverter_master.Base.{ℕ, ◌≡◌, refl, List, [], ◌∷◌, arith, get_or, set, replicate}
use pv_inverter_master.Aggregation.{
  Physical, whole, scaled, val, decode_model_103_to_physical, aggregate,
  encode_aggregated_model_103,
}
use pv_inverter_master.Aggregation.Sums.{power_register}

abbrev device : ℕ → List ℕ
device watts = set (replicate 40 0) 14 watts

abbrev producing : ℕ → Physical
producing watts = record {
  ac_current = whole 0;
  ac_current_l1 = whole 0;
  ac_current_l2 = whole 0;
  ac_current_l3 = whole 0;
  ac_voltage_an = whole 0;
  ac_power = whole watts;
  ac_frequency = whole 0;
  energy_total = whole 0;
  dc_current = whole 0;
  dc_voltage = whole 0;
  dc_power = whole 0;
  temperature = whole 0;
  status_code = 0;
}

power_register_example :
    get_or (encode_aggregated_model_103 (aggregate (producing 40000) (producing 30000 ∷ []))) 14 0
    ≡ 4464
unfolding decode_model_103_to_physical val scaled
power_register_example =
    power_register (device 40000) (device 30000 ∷ []) (producing 40000) (producing 30000 ∷ []) (
      (refl, refl, λ e. absurd (omega (arith, e)), λ e. absurd (omega (arith, e))),
      ((refl, refl, λ e. absurd (omega (arith, e)), λ e. absurd (omega (arith, e))), tt),
    )
