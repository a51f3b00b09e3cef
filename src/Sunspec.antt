-- ===== src/Sunspec.antt =====
-- src/pv_inverter_proxy/sunspec_models.py: the addresses and identifiers of the register model, and
-- the static registers of the virtual inverter. Registers are uint16 values in a list.
pub mod Strings
pub mod Identity
mod Tests
use Prim.Native.Char.{code}
use Prim.Native.String
use pv_inverter_master.Base.{
  ℕ, zero, suc, ◌+◌, ◌-◌, ◌*◌, ◌%◌, String, Bool, true, false, ◌&&◌, Option, none, some, List, [],
  ◌∷◌, ◌++◌, ltb, leb, if◌then◌else◌, length, set, replicate, ℤ, pos, negsuc,
}

abbrev pub controls_addr : ℕ
controls_addr = 40149

abbrev pub total_registers : ℕ
total_registers = 177

abbrev pub common_did : ℕ
common_did = 1

abbrev pub common_length : ℕ
common_length = 65

abbrev pub inverter_did : ℕ
inverter_did = 103

abbrev pub inverter_length : ℕ
inverter_length = 50

abbrev pub nameplate_did : ℕ
nameplate_did = 120

abbrev pub nameplate_length : ℕ
nameplate_length = 26

abbrev pub controls_did : ℕ
controls_did = 123

abbrev pub controls_length : ℕ
controls_length = 24

abbrev pub proxy_unit_id : ℕ
proxy_unit_id = 126

-- The code points of a text.
abbrev pub codes : String → List ℕ
codes String.[] = []
codes (String.◌∷◌ c s) = code c ∷ codes s

-- `text.encode("ascii")`: an error at a code point that is not ASCII.
abbrev pub is_ascii : List ℕ → Bool
is_ascii [] = true
is_ascii (c ∷ cs) = ltb c 128 && is_ascii cs

-- `ljust(n, b"\x00")`: a longer text stays as it is.
unfoldable pub ljust : ℕ → List ℕ → List ℕ
ljust n raw = raw ++ replicate (n - length raw) 0

-- The list comprehension of `int.from_bytes(raw[i:i+2], "big")`, for n registers.
unfoldable pub words : ℕ → List ℕ → List ℕ
words zero raw = []
words (suc n) (a ∷ b ∷ raw) = (a * 256 + b) ∷ words n raw
words (suc n) (a ∷ []) = a ∷ words n []
words (suc n) [] = 0 ∷ words n []

-- `encode_string`; `none` is the UnicodeEncodeError.
unfoldable pub encode_string : List ℕ → ℕ → Option (List ℕ)
unfolding ljust words
encode_string text n = if is_ascii text then some (words n (ljust (n * 2) text)) else none

-- `_int16_as_uint16`; `none` is the `struct.error` of a value out of range.
unfoldable pub int16_as_uint16 : ℤ → Option ℕ
int16_as_uint16 (pos n) = if leb n 32767 then some n else none
int16_as_uint16 (negsuc n) = if leb n 32767 then some (65535 - n) else none

-- `regs[i : i + len(ys)] = ys`
unfoldable pub splice : List ℕ → ℕ → List ℕ → List ℕ
splice regs i [] = regs
splice regs i (y ∷ ys) = splice (set regs i y) (suc i) ys

-- The encoding of a constant that is in range and ASCII.
abbrev pub or_blank {ℓ} : {A : Type ℓ} → A → Option A → A
or_blank blank none = blank
or_blank blank (some a) = a

abbrev pub manufacturer : List ℕ
manufacturer = codes "Fronius"

-- `apply_common_translation`
unfoldable pub apply_common_translation : List ℕ → List ℕ
apply_common_translation regs =
    let headed = set (set regs 0 common_did) 1 common_length in
    let named = splice headed 2 (or_blank [] (encode_string manufacturer 16)) in
    set named 66 proxy_unit_id

-- `regs[i] = v` for each pair.
unfoldable pub assign : List (ℕ × ℕ) → List ℕ → List ℕ
assign [] regs = regs
assign ((i, v) ∷ rest) regs = assign rest (set regs i v)

abbrev sixteen_bit : ℤ → ℕ
sixteen_bit z = or_blank 0 (int16_as_uint16 z)

-- `build_initial_registers`. The zeros that the source writes over zeros are left out.
unfoldable pub build_initial_registers : List ℕ
unfolding encode_string splice assign int16_as_uint16
build_initial_registers =
    let blank = replicate total_registers 0 in
    let headed =
      assign ((0, 0x5375) ∷ (1, 0x6E53) ∷ (2, common_did) ∷ (3, common_length) ∷ []) blank in
    let named = splice headed 4 (or_blank [] (encode_string manufacturer 16)) in
    let identified = splice named 36 (or_blank [] (encode_string [] 8)) in
    assign
      ((68, proxy_unit_id)
        ∷ (69, inverter_did)
        ∷ (70, inverter_length)
        ∷ (121, nameplate_did)
        ∷ (122, nameplate_length)
        ∷ (123, 4)
        ∷ (124, 30000)
        ∷ (126, 30000)
        ∷ (128, 18000)
        ∷ (129, 18000)
        ∷ (130, sixteen_bit (negsuc 17999))
        ∷ (131, sixteen_bit (negsuc 17999))
        ∷ (133, 44)
        ∷ (135, 100)
        ∷ (136, 100)
        ∷ (137, sixteen_bit (negsuc 99))
        ∷ (138, sixteen_bit (negsuc 99))
        ∷ (139, sixteen_bit (negsuc 1))
        ∷ (149, controls_did)
        ∷ (150, controls_length)
        ∷ (154, 100)
        ∷ (175, 0xFFFF)
        ∷ [])
      identified
