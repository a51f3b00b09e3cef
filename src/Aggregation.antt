-- ===== src/Aggregation.antt =====
-- src/pv_inverter_proxy/aggregation.py: the registers of the devices, summed into one virtual inverter.
-- The source computes with floats; a physical value is an exact ratio here. The averages of the
-- voltages that no register gets are left out.

pub mod Sums
mod Tests
use pv_inverter_master.Base.{
  ℕ, ◌+◌, ◌-◌, ◌*◌, ◌/◌, ◌%◌, ◌^◌, max, String, Bool, true, false, ◌&&◌, ◌||◌, Option, none, some,
  List, [], ◌∷◌, ◌++◌, ltb, leb, ◌==◌, if◌then◌else◌, str_eq, get_or, set, replicate, length, Dict,
  lookup,
}
use pv_inverter_master.Throttle.{Ratio, round_half_even}
use pv_inverter_master.Sunspec.{
  common_did, common_length, proxy_unit_id, manufacturer, codes, encode_string, splice, assign,
}
use pv_inverter_master.Cache.{BlockWrite, RegisterCache, update}

-- The values that are aggregated.
pub record Physical : Type 0 where
  pub ac_current : Ratio
  pub ac_current_l1 : Ratio
  pub ac_current_l2 : Ratio
  pub ac_current_l3 : Ratio
  pub ac_voltage_an : Ratio
  pub ac_power : Ratio
  pub ac_frequency : Ratio
  pub energy_total : Ratio
  pub dc_current : Ratio
  pub dc_voltage : Ratio
  pub dc_power : Ratio
  pub temperature : Ratio
  pub status_code : ℕ

abbrev pub whole : ℕ → Ratio
whole n = record { num = n; den = 1 }

-- `raw * 10 ** sf`, for the register of a scale factor.
unfoldable pub scaled : ℕ → ℕ → Ratio
scaled raw sf =
    if ltb 32767 sf then record { num = raw; den = 10 ^ (65536 - sf) } else whole (raw * 10 ^ sf)

-- `_val`
unfoldable pub val : List ℕ → ℕ → ℕ → Ratio
val regs i sf =
    let raw = get_or regs i 0 in
    if leb (length regs) i || leb (length regs) sf
    then whole 0
    else if raw == 0x8000 || raw == 0xFFFF
    then whole 0
    else scaled raw (get_or regs sf 0)

unfoldable pub decode_model_103_to_physical : List ℕ → Option Physical
decode_model_103_to_physical regs =
    if ltb (length regs) 40
    then none
    else some (record {
      ac_current = val regs 2 6;
      ac_current_l1 = val regs 3 6;
      ac_current_l2 = val regs 4 6;
      ac_current_l3 = val regs 5 6;
      ac_voltage_an = val regs 10 13;
      ac_power = val regs 14 15;
      ac_frequency = val regs 16 17;
      energy_total = scaled (get_or regs 24 0 * 65536 + get_or regs 25 0) (get_or regs 26 0);
      dc_current = val regs 27 28;
      dc_voltage = val regs 29 30;
      dc_power = val regs 31 32;
      temperature = val regs 33 37;
      status_code = get_or regs 38 0;
    })

abbrev pub plus : Ratio → Ratio → Ratio
plus a b = record { num = a.num * b.den + b.num * a.den; den = a.den * b.den }

-- `sum(d[key] for d in ...)`
unfoldable pub total : (Physical → Ratio) → List Physical → Ratio
total f [] = whole 0
total f (d ∷ ds) = plus (f d) (total f ds)

abbrev pub mean : (Physical → Ratio) → List Physical → Ratio
mean f ds = let t = total f ds in record { num = t.num; den = t.den * length ds }

unfoldable pub with_dc_power : List Physical → List Physical
with_dc_power [] = []
with_dc_power (d ∷ ds) =
    let rest = with_dc_power ds in if ltb 0 d.dc_power.num then d ∷ rest else rest

-- The average over the devices with DC power.
unfoldable pub dc_voltage_of : List Physical → Ratio
dc_voltage_of [] = whole 0
dc_voltage_of (d ∷ ds) = mean (λ e. e.dc_voltage) (d ∷ ds)

unfoldable pub hottest : Ratio → List Physical → Ratio
hottest t [] = t
hottest t (d ∷ ds) =
    hottest
      (if ltb (t.num * d.temperature.den) (d.temperature.num * t.den) then d.temperature else t) ds

unfoldable pub worst_status : ℕ → List Physical → ℕ
worst_status s [] = s
worst_status s (d ∷ ds) = worst_status (max s d.status_code) ds

-- The totals of at least one device.
unfoldable pub aggregate : Physical → List Physical → Physical
aggregate first others =
    let ds = first ∷ others in
    record {
      ac_current = total (λ d. d.ac_current) ds;
      ac_current_l1 = total (λ d. d.ac_current_l1) ds;
      ac_current_l2 = total (λ d. d.ac_current_l2) ds;
      ac_current_l3 = total (λ d. d.ac_current_l3) ds;
      ac_voltage_an = mean (λ d. d.ac_voltage_an) ds;
      ac_power = total (λ d. d.ac_power) ds;
      ac_frequency = mean (λ d. d.ac_frequency) ds;
      energy_total = total (λ d. d.energy_total) ds;
      dc_current = total (λ d. d.dc_current) ds;
      dc_voltage = dc_voltage_of (with_dc_power ds);
      dc_power = total (λ d. d.dc_power) ds;
      temperature = hottest first.temperature others;
      status_code = worst_status first.status_code others;
    }

-- `int(round(v * factor)) & 0xFFFF`
unfoldable pub register : ℕ → Ratio → ℕ
register factor r = round_half_even (r.num * factor) r.den % 65536

unfoldable pub encode_aggregated_model_103 : Physical → List ℕ
encode_aggregated_model_103 t =
    let energy = round_half_even t.energy_total.num t.energy_total.den in
    assign
      ((0, 103)
        ∷ (1, 50)
        ∷ (2, register 100 t.ac_current)
        ∷ (3, register 100 t.ac_current_l1)
        ∷ (4, register 100 t.ac_current_l2)
        ∷ (5, register 100 t.ac_current_l3)
        ∷ (6, 65534)
        ∷ (10, register 10 t.ac_voltage_an)
        ∷ (13, 65535)
        ∷ (14, register 1 t.ac_power)
        ∷ (15, 0)
        ∷ (16, register 100 t.ac_frequency)
        ∷ (17, 65534)
        ∷ (24, energy / 65536 % 65536)
        ∷ (25, energy % 65536)
        ∷ (26, 0)
        ∷ (27, register 100 t.dc_current)
        ∷ (28, 65534)
        ∷ (29, register 10 t.dc_voltage)
        ∷ (30, 65535)
        ∷ (31, register 1 t.dc_power)
        ∷ (32, 0)
        ∷ (33, register 10 t.temperature)
        ∷ (37, 65535)
        ∷ (38, t.status_code)
        ∷ [])
      (replicate 52 0)

-- The fields of `InverterEntry` that count here.
pub record Entry : Type 0 where
  pub id : String
  pub enabled : Bool
  pub aggregates : Bool
  pub rated_power : ℕ

abbrev is_aggregated : String → List Entry → Bool
is_aggregated id [] = false
is_aggregated id (e ∷ es) = (str_eq e.id id && e.aggregates) || is_aggregated id es

-- The registers of the last polls, by device, as far as there are any.
unfoldable pub decoded : List Entry → Dict (Option (List ℕ)) → List Physical
decoded es [] = []
decoded es ((id, polled) ∷ ds) =
    let rest = decoded es ds in if is_aggregated id es then add polled rest else rest
  where
    keep : Option Physical → List Physical → List Physical
    keep none rest = rest
    keep (some p) rest = p ∷ rest

    add : Option (List ℕ) → List Physical → List Physical
    add none rest = rest
    add (some regs) rest = keep (decode_model_103_to_physical regs) rest

abbrev is_active : String → Dict (Option (List ℕ)) → Bool
is_active id [] = false
is_active id ((other, polled) ∷ ds) = str_eq other id || is_active id ds

unfoldable pub total_rated : List Entry → Dict (Option (List ℕ)) → ℕ
total_rated [] ds = 0
total_rated (e ∷ es) ds =
    let rest = total_rated es ds in
    if e.enabled && e.aggregates && is_active e.id ds then e.rated_power + rest else rest

-- `_update_wrtg`
unfoldable pub update_wrtg : List Entry → Dict (Option (List ℕ)) → RegisterCache → RegisterCache
update_wrtg es ds c =
    let rated = total_rated es ds in
    if ltb 0 rated
    then record c {
      datablock = c.datablock ++ record { address = 40125; values = rated ∷ [] } ∷ [];
    }
    else c

-- The registers of the Common Model; none if a text cannot be encoded.
unfoldable pub put_text : ℕ → List ℕ → ℕ → Option (List ℕ) → Option (List ℕ)
put_text at s n none = none
put_text at s n (some regs) = elim (encode_string s n) [
  | none ↦ none
  | some block ↦ some (splice regs at block)
]

abbrev name_or_default : List ℕ → List ℕ
name_or_default [] = codes "Fronius Proxy"
name_or_default (c ∷ cs) = c ∷ cs

-- `_build_virtual_common`; the name is by code points.
unfoldable pub build_virtual_common : List ℕ → Option (List ℕ)
unfolding put_text
build_virtual_common name =
    let headed =
      assign ((0, common_did) ∷ (1, common_length) ∷ (66, proxy_unit_id) ∷ []) (replicate 67 0) in
    put_text 50 [] 16 (
      put_text 42 (codes "v4.0") 8 (
        put_text 34 [] 8
          (put_text 18 (name_or_default name) 16 (put_text 2 manufacturer 16 (some headed)))))

abbrev pub inverter_cache_addr : ℕ
inverter_cache_addr = 40070

abbrev pub common_cache_addr : ℕ
common_cache_addr = 40003

-- Whether it returns, or raises at a name that cannot be encoded.
pub data Returned : Type 0 where
  returned raised : Returned

with_common :
    Option (List ℕ)
    → List Entry
    → Dict (Option (List ℕ))
    → ℕ
    → RegisterCache
    → Returned × RegisterCache
with_common none es ds now c = (raised, c)
with_common (some common) es ds now c =
    (returned, update_wrtg es ds (update common_cache_addr common now c))

write_totals :
    List Physical
    → List ℕ
    → List Entry
    → Dict (Option (List ℕ))
    → ℕ
    → RegisterCache
    → Returned × RegisterCache
unfolding with_common
write_totals [] name es ds now c = (returned, c)
write_totals (p ∷ ps) name es ds now c =
    with_common (build_virtual_common name) es ds now
      (update inverter_cache_addr (encode_aggregated_model_103 (aggregate p ps)) now c)

-- `recalculate`, without the broadcast at its end.
unfoldable pub recalculate :
    List Entry → List ℕ → Dict (Option (List ℕ)) → ℕ → RegisterCache → Returned × RegisterCache
unfolding write_totals
recalculate es name ds now c = write_totals (decoded es ds) name es ds now c
