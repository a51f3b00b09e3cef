-- ===== src/Cache/Staleness.antt =====
-- When the register cache is stale.
use pv_inverter_master.Base.{ℕ, ◌-◌, ◌<◌, ◌≡◌, refl, true, List, [], ◌∷◌, arith}
use pv_inverter_master.Cache.{RegisterCache, BlockWrite, new, update, is_stale}

-- An update at some time.
pub record Update : Type 0 where
  pub at : ℕ
  pub address : ℕ
  pub values : List ℕ

unfoldable pub update_all : List Update → RegisterCache → RegisterCache
update_all [] c = c
update_all (u ∷ us) c = update_all us (update u.address u.values u.at c)

-- The time of the last update.
abbrev pub last_at : ℕ → List Update → ℕ
last_at t [] = t
last_at t (u ∷ us) = last_at u.at us

update_all-last :
    (us : List Update) (c : RegisterCache)
    → c.has_been_updated ≡ true
    → ((update_all us c).has_been_updated ≡ true)
      × ((update_all us c).last_successful_poll ≡ last_at c.last_successful_poll us)
      × ((update_all us c).staleness_timeout ≡ c.staleness_timeout)
unfolding update_all update
update_all-last [] c h = (h, refl, refl)
update_all-last (u ∷ us) c h = update_all-last us (update u.address u.values u.at c) refl

-- A new cache is stale at every time until its first update. After any updates, the last one at t,
-- it is stale exactly when more than its timeout has passed since t.
pub is_stale-update_all :
    (block : List BlockWrite) (timeout now : ℕ) (u : Update) (us : List Update)
    → let c = update_all (u ∷ us) (new block timeout) in
      (is_stale now (new block timeout) ≡ true)
      × (is_stale now c ≡ true → timeout < now - last_at u.at us)
      × (timeout < now - last_at u.at us → is_stale now c ≡ true)
unfolding is_stale new update_all update
is_stale-update_all block timeout now u us =
    let last = update_all-last us (update u.address u.values u.at (new block timeout)) refl in
    ground (arith, last)
