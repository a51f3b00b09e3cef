-- ===== src/Updater/Version.antt =====
-- `Version` of updater/version.py, over the code points of a text. Digits outside ASCII, which `\d` also
-- matches, are not modelled.
pub mod RoundTrip
use pv_inverter_master.Base.{
  ℕ, zero, suc, ◌+◌, ◌-◌, ◌*◌, ◌/◌, ◌%◌, Bool, true, false, ◌&&◌, ◌||◌, Option, none, some, List,
  [], ◌∷◌, ◌++◌, ltb, leb, ◌==◌, if◌then◌else◌,
}

pub record Version : Type 0 where
  pub major : ℕ
  pub minor : ℕ
  pub patch : ℕ

-- The characters that `strip` removes.
abbrev pub is_space : ℕ → Bool
is_space c =
    leb 9 c && leb c 13
    || leb 28 c && leb c 32
    || c == 0x85
    || c == 0xa0
    || c == 0x1680
    || leb 0x2000 c && leb c 0x200a
    || c == 0x2028
    || c == 0x2029
    || c == 0x202f
    || c == 0x205f
    || c == 0x3000

pub strip_left : List ℕ → List ℕ
strip_left [] = []
strip_left (c ∷ cs) = let rest = strip_left cs in if is_space c then rest else c ∷ cs

abbrev pub trim_cons : ℕ → List ℕ → List ℕ
trim_cons c [] = if is_space c then [] else c ∷ []
trim_cons c (d ∷ ds) = c ∷ d ∷ ds

pub strip_right : List ℕ → List ℕ
strip_right [] = []
strip_right (c ∷ cs) = trim_cons c (strip_right cs)

abbrev pub is_digit : ℕ → Bool
is_digit c = leb b'0' c && leb c b'9'

-- The number that the digits in front spell behind n, and what follows them.
pub digits_value : List ℕ → ℕ → ℕ × List ℕ
digits_value [] n = (n, [])
digits_value (c ∷ cs) n =
    let rest = digits_value cs (n * 10 + (c - b'0')) in if is_digit c then rest else (n, c ∷ cs)

-- `(\d+)`
pub take_number : List ℕ → Option (ℕ × List ℕ)
unfolding digits_value
take_number [] = none
take_number (c ∷ cs) = if is_digit c then some (digits_value (c ∷ cs) 0) else none

pub read_patch : ℕ → ℕ → Option (ℕ × List ℕ) → Option Version
read_patch a b (some (p, [])) = some (record { major = a; minor = b; patch = p })
read_patch a b _ = none

pub read_minor : ℕ → Option (ℕ × List ℕ) → Option Version
unfolding read_patch take_number
read_minor a (some (b, [])) = some (record { major = a; minor = b; patch = 0 })
read_minor a (some (b, c ∷ cs)) = if c == b'.' then read_patch a b (take_number cs) else none
read_minor a none = none

pub read_major : Option (ℕ × List ℕ) → Option Version
unfolding read_minor take_number
read_major (some (a, c ∷ cs)) = if c == b'.' then read_minor a (take_number cs) else none
read_major _ = none

-- `v?`
abbrev pub drop_v : List ℕ → List ℕ
drop_v [] = []
drop_v (c ∷ cs) = if c == b'v' then cs else c ∷ cs

-- `parse` of a text; none is the ValueError.
unfoldable pub parse : List ℕ → Option Version
unfolding strip_left strip_right take_number read_major
parse raw = read_major (take_number (drop_v (strip_right (strip_left raw))))

-- The decimal digits of n in front of `out`; n + 1 rounds are enough.
pub emit : ℕ → ℕ → List ℕ → List ℕ
emit zero n out = out
emit (suc fuel) n out =
    let longer = emit fuel (n / 10) ((b'0' + n % 10) ∷ out) in
    if n / 10 == 0 then (b'0' + n % 10) ∷ out else longer

unfoldable pub decimal : ℕ → List ℕ → List ℕ
unfolding emit
decimal n out = emit (n + 1) n out

-- `__str__`
unfoldable pub str : Version → List ℕ
str v = b'v' ∷ decimal v.major (b'.' ∷ decimal v.minor (b'.' ∷ decimal v.patch []))

-- The order of the tuples.
unfoldable pub newer : Version → Version → Bool
newer a b =
    ltb b.major a.major
    || (b.major == a.major && (ltb b.minor a.minor || (b.minor == a.minor && ltb b.patch a.patch)))
