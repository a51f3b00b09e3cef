-- ===== src/Config/Checks.antt =====
-- The lookups and the validations of src/pv_inverter_proxy/config.py. `ipaddress.ip_address` is a parameter. Hosts,
-- types and identifiers are compared as texts; a port or a unit that is a fraction is not modelled.
use pv_inverter_master.Base.{
  ℕ, String, Bool, true, false, not, ◌&&◌, Option, none, some, List, [], ◌∷◌, str_eq, if◌then◌else◌,
  pos, negsuc, lookup, leb,
}
use pv_inverter_master.Json.{Value, boolean, integer, text, Fields, get, truthy}
use pv_inverter_master.Config.{Config}

abbrev pub is_text : String → Value → Bool
is_text s (text t) = str_eq t s
is_text s _ = false

abbrev pub same_text : Value → Value → Bool
same_text (text s) v = is_text s v
same_text _ v = false

abbrev pub find_gateway : Value → List Fields → Option Fields
find_gateway host [] = none
find_gateway host (g ∷ gs) = if same_text (get "host" g) host then some g else find_gateway host gs

abbrev pub gateways_of : Option (List Fields) → List Fields
gateways_of none = []
gateways_of (some gs) = gs

unfoldable pub get_gateway_for_inverter : Config → Fields → Option Fields
get_gateway_for_inverter c e =
    if is_text "opendtu" (get "type" e)
    then find_gateway (get "gateway_host" e) (gateways_of (lookup "opendtu" c.gateways))
    else none

-- `entry.enabled`
abbrev pub is_enabled : Fields → Bool
is_enabled e = truthy (get "enabled" e)

-- The first enabled entry of `config.inverters`.
unfoldable pub get_active_inverter : List Fields → Option Fields
get_active_inverter [] = none
get_active_inverter (e ∷ es) = if is_enabled e then some e else get_active_inverter es

-- None, an error text, or the TypeError of a comparison.
pub data Validity : Type 0 where
  valid invalid_address invalid_port invalid_unit type_error : Validity

-- `low <= v <= high`; none is a TypeError.
abbrev pub within : ℕ → ℕ → Value → Option Bool
within low high (integer (pos n)) = some (leb low n && leb n high)
within low high (integer (negsuc n)) = some false
within low high (boolean b) = some (leb low (if b then 1 else 0) && leb (if b then 1 else 0) high)
within low high _ = none

abbrev pub unit_check : Option Bool → Validity
unit_check none = type_error
unit_check (some true) = valid
unit_check (some false) = invalid_unit

abbrev pub port_check : Option Bool → Validity → Validity
port_check none next = type_error
port_check (some true) next = next
port_check (some false) next = invalid_port

module _ (is_address : Value → Bool) where
  unfoldable pub validate_inverter_config : Value → Value → Value → Validity
  validate_inverter_config host port unit_id =
      if is_address host
      then port_check (within 1 65535 port) (unit_check (within 0 247 unit_id))
      else invalid_address

  unfoldable pub validate_venus_config : Value → Value → Validity
  validate_venus_config host port =
      if not (truthy host)
      then valid
      else if is_address host
      then port_check (within 1 65535 port) valid
      else invalid_address
