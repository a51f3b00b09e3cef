-- ===== src/Sunspec/Identity.antt =====
-- The identity that the proxy puts in the place of an inverter's own.
use pv_inverter_master.Base.{
  ℕ, zero, suc, ◌+◌, ◌≤◌, ◌<◌, ◌≡◌, ◌≢◌, refl, sym, ◌∙◌, some, List, [], ◌∷◌, arith, length, set,
  length-set, get_elem?, get_elem?-set_ne, get_elem?-set_self,
}
use pv_inverter_master.Sunspec.{
  splice, apply_common_translation, proxy_unit_id, common_did, common_length, encode_string,
  manufacturer, or_blank,
}

length-splice : (regs : List ℕ) (i : ℕ) (ys : List ℕ) → length (splice regs i ys) ≡ length regs
unfolding splice
length-splice regs i [] = refl
length-splice regs i (y ∷ ys) = length-splice (set regs i y) (suc i) ys ∙ length-set regs i y

get_elem?-splice_above :
    (regs : List ℕ) (i : ℕ) (ys : List ℕ) (j : ℕ)
    → i + length ys ≤ j
    → get_elem? (splice regs i ys) j ≡ get_elem? regs j
unfolding splice
get_elem?-splice_above regs i [] j h = refl
get_elem?-splice_above regs i (y ∷ ys) j h =
    get_elem?-splice_above (set regs i y) (suc i) ys j (omega arith)
    ∙ get_elem?-set_ne regs {i = i} {j = j} y (omega arith)

get_elem?-splice_below :
    (regs : List ℕ) (i : ℕ) (ys : List ℕ) (j : ℕ)
    → j < i
    → get_elem? (splice regs i ys) j ≡ get_elem? regs j
unfolding splice
get_elem?-splice_below regs i [] j h = refl
get_elem?-splice_below regs i (y ∷ ys) j h =
    get_elem?-splice_below (set regs i y) (suc i) ys j (omega arith)
    ∙ get_elem?-set_ne regs {i = i} {j = j} y (omega arith)

get_elem?-splice_inside :
    (regs : List ℕ) (i : ℕ) (ys : List ℕ) (j : ℕ)
    → j < length ys
    → i + length ys ≤ length regs
    → get_elem? (splice regs i ys) (i + j) ≡ get_elem? ys j
unfolding splice
get_elem?-splice_inside regs i [] j h fits = absurd (omega arith)
get_elem?-splice_inside regs i (y ∷ ys) zero h fits =
    let at : i + zero ≡ i = omega arith in
    rw at (
      get_elem?-splice_below (set regs i y) (suc i) ys i (omega arith)
      ∙ get_elem?-set_self regs i y (omega arith))
get_elem?-splice_inside regs i (y ∷ ys) (suc j) h fits =
    let at : i + suc j ≡ suc i + j = omega arith in
    rw at (
      get_elem?-splice_inside (set regs i y) (suc i) ys j (omega arith)
        (omega (arith, length-set regs i y)))

-- The registers of the name that the proxy presents.
abbrev pub fronius : List ℕ
fronius = or_blank [] (encode_string manufacturer 16)

length-fronius : length fronius ≡ 16
unfolding encode_string
length-fronius = refl

module _ (regs : List ℕ) (full : length regs ≡ 67) where
  abbrev headed : List ℕ
  headed = set (set regs 0 common_did) 1 common_length

  length-headed : length headed ≡ 67
  length-headed =
      length-set (set regs 0 common_did) 1 common_length ∙ length-set regs 0 common_did ∙ full

  length-named : length (splice headed 2 fronius) ≡ 67
  length-named = length-splice headed 2 fronius ∙ length-headed

  get_elem?-translated :
      (j : ℕ)
      → j ≢ 66
      → get_elem? (apply_common_translation regs) j ≡ get_elem? (splice headed 2 fronius) j
  unfolding apply_common_translation
  get_elem?-translated j h =
      get_elem?-set_ne (splice headed 2 fronius) {i = 66} {j = j} proxy_unit_id (λ e. h (sym e))

  get_elem?-header :
      (j : ℕ) → j < 2 → get_elem? (apply_common_translation regs) j ≡ get_elem? headed j
  get_elem?-header j h =
      get_elem?-translated j (omega arith) ∙ get_elem?-splice_below headed 2 fronius j h

  get_elem?-rest :
      (j : ℕ) → 18 ≤ j → j ≤ 65 → get_elem? (apply_common_translation regs) j ≡ get_elem? regs j
  get_elem?-rest j low high =
      get_elem?-translated j (omega arith)
      ∙ get_elem?-splice_above headed 2 fronius j (omega (arith, length-fronius))
      ∙ get_elem?-set_ne (set regs 0 common_did) {i = 1} {j = j} common_length (omega arith)
      ∙ get_elem?-set_ne regs {i = 0} {j = j} common_did (omega arith)

  get_elem?-name :
      (j : ℕ) → j < 16 → get_elem? (apply_common_translation regs) (2 + j) ≡ get_elem? fronius j
  get_elem?-name j h =
      get_elem?-translated (2 + j) (omega arith)
      ∙ get_elem?-splice_inside headed 2 fronius j (omega (arith, length-fronius))
          (omega (arith, length-fronius, length-headed))

  -- A Common Model block of 67 registers keeps its length under the translation. Its header becomes
  -- 1 and 65, its manufacturer the 16 registers of "Fronius", its unit 126, and the registers
  -- 18 to 65 (model, options, version, serial number) are passed on unchanged.
  pub apply_common_translation-identity :
      (length (apply_common_translation regs) ≡ 67)
      × (get_elem? (apply_common_translation regs) 0 ≡ some common_did)
      × (get_elem? (apply_common_translation regs) 1 ≡ some common_length)
      × ((j : ℕ) → j < 16 → get_elem? (apply_common_translation regs) (2 + j) ≡ get_elem? fronius j)
      × ((j : ℕ) → 18 ≤ j → j ≤ 65 → get_elem? (apply_common_translation regs) j ≡ get_elem? regs j)
      × (get_elem? (apply_common_translation regs) 66 ≡ some proxy_unit_id)
  unfolding apply_common_translation
  apply_common_translation-identity = (
    length-set (splice headed 2 fronius) 66 proxy_unit_id ∙ length-named,
    get_elem?-header 0 (omega arith)
        ∙ get_elem?-set_ne (set regs 0 common_did) {i = 1} {j = 0} common_length (omega arith)
        ∙ get_elem?-set_self regs 0 common_did (omega arith),
    get_elem?-header 1 (omega arith)
        ∙ get_elem?-set_self (set regs 0 common_did) 1 common_length
            (omega (arith, length-set regs 0 common_did)),
    get_elem?-name,
    get_elem?-rest,
    get_elem?-set_self (splice headed 2 fronius) 66 proxy_unit_id (omega (arith, length-named)),
  )
