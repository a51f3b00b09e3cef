-- ===== src/Updater/Version/RoundTrip.antt =====
-- The canonical text of a version is read back.
use pv_inverter_master.Base.{
  ℕ, zero, suc, ◌+◌, ◌*◌, ◌/◌, ◌%◌, ◌<◌, ◌≡◌, refl, ap, ◌∙◌, Bool, true, false, some, List, [], ◌∷◌,
  ◌==◌, arith, Bool-cases, inl, inr,
}
use pv_inverter_master.Updater.Version.{
  Version, is_space, strip_left, trim_cons, strip_right, is_digit, digits_value, take_number,
  read_patch, read_minor, read_major, drop_v, parse, emit, decimal, str,
}

-- A text of characters that are no spaces, from its last to its first.
abbrev Solid : List ℕ → Type 0
Solid [] = Unit
Solid (c ∷ cs) = (is_space c ≡ false) × Solid cs

emit-Solid : (fuel n : ℕ) (out : List ℕ) → Solid out → Solid (emit fuel n out)
unfolding emit
emit-Solid zero n out h = h
emit-Solid (suc fuel) n out h = elim (Bool-cases (n / 10 == 0)) [
  | inl e ↦ rw e (ground arith, h)
  | inr e ↦ rw e (emit-Solid fuel (n / 10) ((b'0' + n % 10) ∷ out) (ground arith, h))
]

is_digit-last : (n : ℕ) → is_digit (b'0' + n % 10) ≡ true
is_digit-last n = ground arith

digits_value-last :
    (n m : ℕ) (out : List ℕ)
    → digits_value ((b'0' + n % 10) ∷ out) m ≡ digits_value out (m * 10 + n % 10)
unfolding digits_value
digits_value-last n m out = rw (is_digit-last n) (ap (digits_value out) (omega arith))

-- The digits of n are read as n, and then what stood behind them.
digits_value-emit :
    (fuel n : ℕ) (out : List ℕ) → n < fuel → digits_value (emit fuel n out) 0 ≡ digits_value out n
unfolding emit
digits_value-emit zero n out h = elim h [ ]
digits_value-emit (suc fuel) n out h = elim (Bool-cases (n / 10 == 0)) [
  | inl e ↦ rw e (digits_value-last n 0 out ∙ ap (digits_value out) (ground arith))
  | inr e ↦ rw e (
      digits_value-emit fuel (n / 10) ((b'0' + n % 10) ∷ out) (ground arith)
      ∙ digits_value-last n (n / 10) out
      ∙ ap (digits_value out) (omega arith))
]

-- The digits begin with a digit.
abbrev starts_with_digit : List ℕ → Bool
starts_with_digit [] = false
starts_with_digit (c ∷ cs) = is_digit c

emit-digit : (fuel n : ℕ) (out : List ℕ) → n < fuel → starts_with_digit (emit fuel n out) ≡ true
unfolding emit
emit-digit zero n out h = elim h [ ]
emit-digit (suc fuel) n out h = elim (Bool-cases (n / 10 == 0)) [
  | inl e ↦ rw e (is_digit-last n)
  | inr e ↦ rw e (emit-digit fuel (n / 10) ((b'0' + n % 10) ∷ out) (ground arith))
]

take_number-digit :
    (cs : List ℕ) → starts_with_digit cs ≡ true → take_number cs ≡ some (digits_value cs 0)
unfolding take_number
take_number-digit [] h = absurd (cc)
take_number-digit (c ∷ cs) h = rw h refl

take_number-decimal :
    (n : ℕ) (out : List ℕ) → take_number (decimal n out) ≡ some (digits_value out n)
unfolding decimal
take_number-decimal n out =
    take_number-digit (emit (n + 1) n out) (emit-digit (n + 1) n out (omega arith))
    ∙ ap some (digits_value-emit (n + 1) n out (omega arith))

strip_left-Solid : (cs : List ℕ) → Solid cs → strip_left cs ≡ cs
unfolding strip_left
strip_left-Solid [] h = refl
strip_left-Solid (c ∷ cs) h = rw h.0 refl

trim_cons-solid : (c : ℕ) (cs : List ℕ) → is_space c ≡ false → trim_cons c cs ≡ c ∷ cs
trim_cons-solid c [] h = rw h refl
trim_cons-solid c (d ∷ ds) h = refl

strip_right-Solid : (cs : List ℕ) → Solid cs → strip_right cs ≡ cs
unfolding strip_right
strip_right-Solid [] h = refl
strip_right-Solid (c ∷ cs) h =
    ap (trim_cons c) (strip_right-Solid cs h.1) ∙ trim_cons-solid c cs h.0

decimal-Solid : (n : ℕ) (out : List ℕ) → Solid out → Solid (decimal n out)
unfolding decimal
decimal-Solid n = emit-Solid (n + 1) n

-- The text of a version is parsed to that version.
pub parse-str : (v : Version) → parse (str v) ≡ some v
unfolding parse str digits_value read_major read_minor read_patch
parse-str v =
    let last = decimal v.patch [] in
    let tail = decimal v.minor (b'.' ∷ last) in
    let whole = decimal v.major (b'.' ∷ tail) in
    let solid : Solid (b'v' ∷ whole) = (
      refl,
      decimal-Solid v.major (b'.' ∷ tail)
          (refl, decimal-Solid v.minor (b'.' ∷ last) (refl, decimal-Solid v.patch [] tt)),
    ) in
    ap (λ cs. read_major (take_number (drop_v (strip_right cs))))
      (strip_left-Solid (b'v' ∷ whole) solid)
    ∙ ap (λ cs. read_major (take_number (drop_v cs))) (strip_right-Solid (b'v' ∷ whole) solid)
    ∙ ap read_major (take_number-decimal v.major (b'.' ∷ tail))
    ∙ ap (read_minor v.major) (take_number-decimal v.minor (b'.' ∷ last))
    ∙ ap (read_patch v.major v.minor) (take_number-decimal v.patch [])
