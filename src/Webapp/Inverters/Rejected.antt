-- ===== src/Webapp/Inverters/Rejected.antt =====
-- An update with an address, a port or a unit that is refused.
use pv_inverter_master.Json.{Fields}
use pv_inverter_master.Webapp.Inverters.{updatable, set_fields}

-- The entry that an update makes of an entry.
abbrev pub updated : Fields → Fields → Fields
updated body e = set_fields updatable body e
