-- ===== src/Base/Assoc.antt =====
-- A Python dict with text keys, in insertion order, as an association list.
use Prim.Native.String.{String}
use mathlib.Core.Path.{◌≡◌, refl}
use mathlib.Core.Bool.{true}
use mathlib.Core.Option.{Option, none, some}
use mathlib.Core.List.{List, [], ◌∷◌}
use native.Mathlib.Omega.{arith}
use text.Mathlib.Text.{◌==◌ as str_eq}
use text.Mathlib.TextEquality.{eq_iff}
use pv_inverter_master.Base.Tests.{if◌then◌else◌}

abbrev pub Dict {ℓ} : Type ℓ → Type ℓ
Dict V = List (String × V)

module _ {ℓ} {V : Type ℓ} where
  -- `d.get(key)`
  unfoldable pub lookup : String → Dict V → Option V
  lookup key [] = none
  lookup key ((other, x) ∷ rest) = if str_eq other key then some x else lookup key rest

  -- `d[key] = value`: a key that is there keeps its place.
  unfoldable pub insert : String → V → Dict V → Dict V
  insert key value [] = (key, value) ∷ []
  insert key value ((other, x) ∷ rest) =
      if str_eq other key then (other, value) ∷ rest else (other, x) ∷ insert key value rest

  pub lookup-insert :
      (key asked : String) (value : V) (d : Dict V)
      → lookup asked (insert key value d)
        ≡ (if str_eq key asked then some value else lookup asked d)
  unfolding lookup insert
  lookup-insert key asked value [] = refl
  lookup-insert key asked value ((other, x) ∷ rest) =
      let here = eq_iff other key in
      let there = lookup-insert key asked value rest in
      ground (arith, here, eq_iff key asked, eq_iff other asked, there)

pub str_eq_self : (k : String) → str_eq k k ≡ true
str_eq_self k = (eq_iff k k).1 refl

module _ {ℓ} {V : Type ℓ} where
  pub lookup-insert_self : (k : String) (v : V) (m : Dict V) → lookup k (insert k v m) ≡ some v
  lookup-insert_self k v m = rw (lookup-insert, str_eq_self)
