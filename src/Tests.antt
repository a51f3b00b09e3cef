-- ===== src/Tests.antt =====
-- The theorems of the cache and the ring buffer at concrete values.
use pv_inverter_master.Base.{◌≡◌, true, [], ◌∷◌, arith}
use pv_inverter_master.Cache.{new, is_stale}
use pv_inverter_master.Cache.Staleness.{Update, update_all, is_stale-update_all}
use pv_inverter_master.TimeSeries
use pv_inverter_master.TimeSeries.{Sample, get_all, append_all, get_all-append_all}

abbrev first_update : Update
first_update = record { at = 1000; address = 40002; values = 1 ∷ [] }

abbrev second_update : Update
second_update = record { at = 2000; address = 40002; values = 2 ∷ [] }

is_stale-update_all_example :
    is_stale 40000 (update_all (first_update ∷ second_update ∷ []) (new [] 30000)) ≡ true
is_stale-update_all_example =
    (is_stale-update_all [] 30000 40000 first_update (second_update ∷ [])).2 (omega arith)

abbrev sample : Sample
sample = record { timestamp = 1000; value = 42 }

get_all-append_all_example :
    get_all (append_all (sample ∷ sample ∷ []) (TimeSeries.new 60)) ≡ sample ∷ sample ∷ []
get_all-append_all_example = (get_all-append_all 60 (sample ∷ sample ∷ []) sample).1 (omega arith)
