-- ===== src/Sunspec/Strings.antt =====
-- The register form of texts and of signed numbers, and the way back.
use pv_inverter_master.Base.{
  ℕ, zero, suc, ◌+◌, ◌-◌, ◌*◌, ◌/◌, ◌%◌, ◌≤◌, ◌<◌, ◌≡◌, refl, ap, true, some, List, [], ◌∷◌, ◌++◌,
  arith, ltb, if◌then◌else◌, length, replicate, length-append, ℤ, pos, negsuc,
}
use pv_inverter_master.Sunspec.{is_ascii, ljust, words, encode_string, int16_as_uint16}

-- The bytes of big-endian registers.
unfoldable pub bytes : List ℕ → List ℕ
bytes [] = []
bytes (r ∷ rs) = (r / 256) ∷ (r % 256) ∷ bytes rs

abbrev AllBytes : List ℕ → Type 0
AllBytes [] = Unit
AllBytes (b ∷ bs) = (b < 256) × AllBytes bs

length-words : (n : ℕ) (raw : List ℕ) → length (words n raw) ≡ n
unfolding words
length-words zero raw = refl
length-words (suc n) (a ∷ b ∷ raw) = ap suc (length-words n raw)
length-words (suc n) (a ∷ []) = ap suc (length-words n [])
length-words (suc n) [] = ap suc (length-words n [])

bytes-words : (n : ℕ) (raw : List ℕ) → AllBytes raw → length raw ≡ n * 2 → bytes (words n raw) ≡ raw
unfolding words bytes
bytes-words zero [] h e = refl
bytes-words zero (a ∷ raw) h e = absurd (omega arith)
bytes-words (suc n) [] h e = absurd (omega arith)
bytes-words (suc n) (a ∷ []) h e = absurd (omega arith)
bytes-words (suc n) (a ∷ b ∷ raw) h e =
    let high : (a * 256 + b) / 256 ≡ a = omega arith in
    let low : (a * 256 + b) % 256 ≡ b = omega arith in
    cc (high, low, bytes-words n raw h.1.1 (omega arith))

AllBytes-zeros : (k : ℕ) → AllBytes (replicate k 0)
AllBytes-zeros zero = tt
AllBytes-zeros (suc k) = (omega arith, AllBytes-zeros k)

AllBytes-ljust : (k : ℕ) (text : List ℕ) → is_ascii text ≡ true → AllBytes (text ++ replicate k 0)
AllBytes-ljust k [] h = AllBytes-zeros k
AllBytes-ljust k (c ∷ cs) h = (ground arith, AllBytes-ljust k cs (ground arith))

length-zeros : (k : ℕ) → length (replicate {A = ℕ} k 0) ≡ k
length-zeros zero = refl
length-zeros (suc k) = ap suc (length-zeros k)

-- An ASCII text that fits into n registers is encoded as exactly n registers, and their bytes are
-- the text followed by nulls up to twice n.
pub encode_string-bytes :
    (text : List ℕ) (n : ℕ)
    → is_ascii text ≡ true
    → length text ≤ n * 2
    → (regs : List ℕ) × (encode_string text n ≡ some regs)
      × (length regs ≡ n)
      × (bytes regs ≡ text ++ replicate (n * 2 - length text) 0)
unfolding encode_string ljust
encode_string-bytes text n ascii fits =
    let padded : List ℕ = text ++ replicate (n * 2 - length text) 0 in
    (
      words n padded,
      rw ascii,
      length-words n padded,
      bytes-words n padded (AllBytes-ljust (n * 2 - length text) text ascii) (
          omega (
            arith,
            length-append {0} text (replicate (n * 2 - length text) 0),
            length-zeros (n * 2 - length text),
          )),
    )

-- The sign that `_sf` of aggregation.py gives back to a register: `raw - 65536` above 32767.
unfoldable pub as_int16 : ℕ → ℤ
as_int16 raw = if ltb 32767 raw then negsuc (65535 - raw) else pos raw

abbrev pub FitsInt16 : ℤ → Type 0
FitsInt16 (pos n) = n ≤ 32767
FitsInt16 (negsuc n) = n ≤ 32767

-- A signed number of 16 bits becomes a register below 65536 which reads back as that number.
pub as_int16-int16_as_uint16 :
    (z : ℤ)
    → FitsInt16 z
    → (raw : ℕ) × (int16_as_uint16 z ≡ some raw) × (raw < 65536) × (as_int16 raw ≡ z)
unfolding int16_as_uint16 as_int16
as_int16-int16_as_uint16 (pos n) h = (n, ground arith, ground arith, ground arith)
as_int16-int16_as_uint16 (negsuc n) h = (65535 - n, ground arith, ground arith, ground arith)
