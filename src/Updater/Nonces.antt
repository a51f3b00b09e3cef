-- ===== src/Updater/Nonces.antt =====
-- `NonceDedupStore` of updater_root/trigger_reader.py. What `_load` returns for the file is the list of
-- its well-formed entries, empty for a missing or corrupt file; a save replaces the file whole,
-- raises and leaves it, or raises after the file was replaced, as its mode cannot be set. Times are whole milliseconds.
pub mod Retention
pub mod Held
use pv_inverter_master.Base.{
  ℕ, zero, suc, ◌+◌, String, Bool, true, false, not, ◌&&◌, ◌||◌, Option, none, some, List, [], ◌∷◌,
  ◌++◌, str_eq, if◌then◌else◌, ltb, take,
}
use pv_inverter_master.Updater.Exec.{Written, written, unwritten, mode_unset}

pub record Entry : Type 0 where
  pub nonce : String
  pub seen_at : ℕ

pub record NonceDedupStore : Type 0 where
  pub max_entries : ℕ
  pub entries : List Entry
  pub saving : Written

-- DEFAULT_MAX_NONCES
abbrev pub default_max_nonces : ℕ
default_max_nonces = 50

-- `any(e.get("nonce") == nonce for e in entries)`
pub seen_in : String → List Entry → Bool
seen_in n [] = false
seen_in n (e ∷ es) = str_eq e.nonce n || seen_in n es

-- `sorted(entries, key=seen_at, reverse=True)`, which keeps the order of equal keys.
pub insert_newest : Entry → List Entry → List Entry
insert_newest e [] = e ∷ []
insert_newest e (f ∷ fs) = if ltb f.seen_at e.seen_at then e ∷ f ∷ fs else f ∷ insert_newest e fs

pub sort_onto : List Entry → List Entry → List Entry
sort_onto done [] = done
sort_onto done (e ∷ es) = sort_onto (insert_newest e done) es

pub saved : Written → NonceDedupStore → NonceDedupStore → NonceDedupStore × Bool
saved written new old = (new, true)
saved unwritten new old = (old, false)
saved mode_unset new old = (new, false)

-- `_save`: the store, and whether the call returned.
pub save : List Entry → NonceDedupStore → NonceDedupStore × Bool
unfolding sort_onto insert_newest saved
save es s = saved s.saving (record s { entries = take s.max_entries (sort_onto [] es) }) s

unfoldable pub has_seen : String → NonceDedupStore → Bool
unfolding seen_in
has_seen n s = seen_in n s.entries

-- `mark_seen`; a nonce that is there already is not written again.
unfoldable pub mark_seen : String → ℕ → NonceDedupStore → NonceDedupStore × Bool
unfolding save seen_in
mark_seen n now s =
    if seen_in n s.entries
    then (s, true)
    else save (s.entries ++ record { nonce = n; seen_at = now } ∷ []) s
