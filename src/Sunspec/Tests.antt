-- ===== src/Sunspec/Tests.antt =====
-- The theorems of the register model at concrete values.
use pv_inverter_master.Base.{
  ℕ, ◌≡◌, ◌<◌, ◌++◌, ◌*◌, ◌-◌, refl, some, List, arith, negsuc, length, get_elem?, replicate,
}
use pv_inverter_master.Sunspec.{
  encode_string, int16_as_uint16, apply_common_translation, codes, proxy_unit_id,
}
use pv_inverter_master.Sunspec.Strings.{
  bytes, encode_string-bytes, as_int16-int16_as_uint16, as_int16, FitsInt16,
}
use pv_inverter_master.Sunspec.Identity.{apply_common_translation-identity}

encode_string-bytes_example :
    (regs : List ℕ) × (encode_string (codes "SE30K") 16 ≡ some regs)
    × (length regs ≡ 16)
    × (bytes regs ≡ codes "SE30K" ++ replicate (16 * 2 - length (codes "SE30K")) 0)
encode_string-bytes_example = encode_string-bytes (codes "SE30K") 16 refl (omega arith)

minus_two : FitsInt16 (negsuc 1)
minus_two = omega arith

as_int16-int16_as_uint16_example :
    (raw : ℕ) × (int16_as_uint16 (negsuc 1) ≡ some raw) × (raw < 65536) × (as_int16 raw ≡ negsuc 1)
as_int16-int16_as_uint16_example = as_int16-int16_as_uint16 (negsuc 1) minus_two

apply_common_translation-identity_example :
    get_elem? (apply_common_translation (replicate 67 7)) 66 ≡ some proxy_unit_id
apply_common_translation-identity_example =
    (apply_common_translation-identity (replicate 67 7) refl).5
