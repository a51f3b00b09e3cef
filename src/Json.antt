-- ===== src/Json.antt =====
-- The values that Python's `json.loads` returns, as far as the program tells them apart. A number that
-- is no integer is `fraction`. An object's keys are distinct, as in a dict.
use pv_inverter_master.Base.{
  ◌≡◌, refl, eq_iff, arith, not, String, Bool, true, false, str_eq, ◌==◌, if◌then◌else◌, ℤ, pos,
}

mutual
  pub data Value : Type 0 where
    null : Value
    boolean : Bool → Value
    integer : ℤ → Value
    fraction : Value
    text : String → Value
    array : Items → Value
    object : Fields → Value

  pub data Items : Type 0 where
    nil : Items
    cons : Value → Items → Items

  pub data Fields : Type 0 where
    end : Fields
    field : String → Value → Fields → Fields

-- `data.get(key)`; `null` for a missing key, as the code does not tell the two apart.
unfoldable pub get : String → Fields → Value
get k end = null
get k (field j v fs) = if str_eq j k then v else get k fs

-- `key in data`
unfoldable pub has_key : String → Fields → Bool
has_key k end = false
has_key k (field j v fs) = if str_eq j k then true else has_key k fs

-- `v == 1`, which in Python holds of `True` too. (A fraction equal to 1, as 1.0, is not modelled.)
abbrev pub is_one : Value → Bool
is_one (integer (pos n)) = n == 1
is_one (boolean b) = b
is_one _ = false

-- Whether the value can be a member of a set: lists and dicts are not hashable.
abbrev pub is_hashable : Value → Bool
is_hashable (array _) = false
is_hashable (object _) = false
is_hashable _ = true

-- Python's truth value. A fraction equal to 0 is not modelled.
abbrev pub truthy : Value → Bool
truthy null = false
truthy (boolean b) = b
truthy (integer (pos n)) = not (n == 0)
truthy (text s) = not (str_eq s "")
truthy (array nil) = false
truthy (object end) = false
truthy _ = true

-- `d[key] = value`
unfoldable pub put : String → Value → Fields → Fields
put k v end = field k v end
put k v (field j w fs) = if str_eq j k then field j v fs else field j w (put k v fs)

pub get-put :
    (k asked : String) (v : Value) (fs : Fields)
    → get asked (put k v fs) ≡ (if str_eq k asked then v else get asked fs)
unfolding get put
get-put k asked v end = refl
get-put k asked v (field j w fs) =
    let here = eq_iff j k in
    let there = get-put k asked v fs in ground (arith, here, eq_iff k asked, eq_iff j asked, there)
