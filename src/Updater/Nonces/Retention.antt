-- ===== src/Updater/Nonces/Retention.antt =====
-- Which nonces the store keeps.
use pv_inverter_master.Base.{
  ℕ, zero, suc, ◌+◌, ◌≤◌, ◌<◌, ◌≡◌, refl, ap, String, true, false, ◌||◌, List, [], ◌∷◌, ◌++◌,
  str_eq, str_eq_self, take, length, length-take, length-append, arith,
}
use pv_inverter_master.Updater.Nonces.{
  Entry, NonceDedupStore, seen_in, insert_newest, sort_onto, has_seen, mark_seen,
}
use pv_inverter_master.Updater.Exec.{written}

-- Every entry is older than a time.
abbrev pub AllBefore : ℕ → List Entry → Type 0
AllBefore t [] = Unit
AllBefore t (e ∷ es) = (e.seen_at < t) × AllBefore t es

pub insert_newest-AllBefore :
    (t : ℕ) (e : Entry) (es : List Entry)
    → e.seen_at < t
    → AllBefore t es
    → AllBefore t (insert_newest e es)
unfolding insert_newest
insert_newest-AllBefore t e [] h k = (h, tt)
insert_newest-AllBefore t e (f ∷ fs) h k = ground (arith, insert_newest-AllBefore t e fs h k.1)

pub sort_onto-AllBefore :
    (t : ℕ) (done es : List Entry)
    → AllBefore t done
    → AllBefore t es
    → AllBefore t (sort_onto done es)
unfolding sort_onto
sort_onto-AllBefore t done [] h k = h
sort_onto-AllBefore t done (e ∷ es) h k =
    sort_onto-AllBefore t (insert_newest e done) es (insert_newest-AllBefore t e done k.0 h) k.1

pub sort_onto-append :
    (done es : List Entry) (e : Entry)
    → sort_onto done (es ++ e ∷ []) ≡ insert_newest e (sort_onto done es)
unfolding sort_onto
sort_onto-append done [] e = refl
sort_onto-append done (f ∷ fs) e = sort_onto-append (insert_newest f done) fs e

pub insert_newest-first :
    (e : Entry) (es : List Entry) → AllBefore e.seen_at es → insert_newest e es ≡ e ∷ es
unfolding insert_newest
insert_newest-first e [] h = refl
insert_newest-first e (f ∷ fs) h = ground arith

length-insert_newest : (e : Entry) (es : List Entry) → length (insert_newest e es) ≡ suc (length es)
unfolding insert_newest
length-insert_newest e [] = refl
length-insert_newest e (f ∷ fs) = ground (arith, length-insert_newest e fs)

length-sort_onto : (done es : List Entry) → length (sort_onto done es) ≡ length done + length es
unfolding sort_onto
length-sort_onto done [] = omega arith
length-sort_onto done (e ∷ es) =
    omega (arith, length-sort_onto (insert_newest e done) es, length-insert_newest e done)

seen_in-insert_newest :
    (n : String) (e : Entry) (es : List Entry)
    → seen_in n (insert_newest e es) ≡ (str_eq e.nonce n || seen_in n es)
unfolding insert_newest seen_in
seen_in-insert_newest n e [] = refl
seen_in-insert_newest n e (f ∷ fs) = ground (arith, seen_in-insert_newest n e fs)

seen_in-sort_onto :
    (n : String) (done es : List Entry)
    → seen_in n (sort_onto done es) ≡ (seen_in n done || seen_in n es)
unfolding sort_onto seen_in
seen_in-sort_onto n done [] = ground arith
seen_in-sort_onto n done (e ∷ es) =
    ground (arith, seen_in-sort_onto n (insert_newest e done) es, seen_in-insert_newest n e done)

seen_in-append :
    (n : String) (es : List Entry) (e : Entry)
    → seen_in n (es ++ e ∷ []) ≡ (seen_in n es || str_eq e.nonce n)
unfolding seen_in
seen_in-append n [] e = ground arith
seen_in-append n (f ∷ fs) e = ground (arith, seen_in-append n fs e)

take-all {ℓ} : {A : Type ℓ} (k : ℕ) (xs : List A) → length xs ≤ k → take k xs ≡ xs
take-all zero [] h = refl
take-all zero (x ∷ xs) h = absurd (omega arith)
take-all (suc k) [] h = refl
take-all (suc k) (x ∷ xs) h = ap (λ t. x ∷ t) (take-all k xs (omega arith))

-- The store after a nonce that is new was marked, and the save succeeded.
abbrev marked : String → ℕ → NonceDedupStore → NonceDedupStore
marked n now s = record s {
  entries =
      take s.max_entries (sort_onto [] (s.entries ++ record { nonce = n; seen_at = now } ∷ []));
}

mark_seen_new :
    (n : String) (now : ℕ) (s : NonceDedupStore)
    → s.saving ≡ written
    → has_seen n s ≡ false
    → mark_seen n now s ≡ (marked n now s, true)
unfolding mark_seen has_seen
mark_seen_new n now s w h = rw (h, w) refl

seen_in-take_first :
    (k : ℕ) (n : String) (now : ℕ) (es : List Entry)
    → 1 ≤ k
    → seen_in n (take k (record { nonce = n; seen_at = now } ∷ es)) ≡ true
unfolding seen_in
seen_in-take_first zero n now es h = absurd (omega arith)
seen_in-take_first (suc k) n now es h = rw str_eq_self

module _ (n : String) (now : ℕ) (s : NonceDedupStore) where
  abbrev fresh : Entry
  fresh = record { nonce = n; seen_at = now }

  marked-has_seen : 1 ≤ s.max_entries → AllBefore now s.entries → has_seen n (marked n now s) ≡ true
  unfolding has_seen
  marked-has_seen room before =
      let sorted : AllBefore now (sort_onto [] s.entries) =
        sort_onto-AllBefore now [] s.entries tt before in
      rw (sort_onto-append, insert_newest-first fresh (sort_onto [] s.entries) sorted)
        (seen_in-take_first s.max_entries n now (sort_onto [] s.entries) room)

  marked_forgets_none :
      length s.entries < s.max_entries
      → (m : String) → has_seen m (marked n now s) ≡ (has_seen m s || str_eq n m)
  unfolding has_seen seen_in
  marked_forgets_none room m =
      let all : List Entry = s.entries ++ fresh ∷ [] in
      let fits : length (sort_onto [] all) ≤ s.max_entries =
        omega (arith, length-sort_onto [] all, length-append {0} s.entries (fresh ∷ [])) in
      rw (take-all s.max_entries (sort_onto [] all) fits, seen_in-sort_onto)
        (seen_in-append m s.entries fresh)

-- In a store that can be saved, with room for at least one, a new nonce that is marked later than all that
-- are stored is seen in the store that results. The store never
-- holds more than its maximum after a save, and while it has room it forgets no nonce.
pub mark_seen_keeps :
    (n : String) (now : ℕ) (s : NonceDedupStore)
    → s.saving ≡ written
    → 1 ≤ s.max_entries
    → AllBefore now s.entries
    → has_seen n s ≡ false
    → let (s', returned) = mark_seen n now s in
      (returned ≡ true)
      × (has_seen n s' ≡ true)
      × (length s'.entries ≤ s'.max_entries)
      × (length s.entries < s.max_entries
          → (m : String) → has_seen m s' ≡ (has_seen m s || str_eq n m))
mark_seen_keeps n now s w room before new =
    let sorted : List Entry =
      sort_onto [] (s.entries ++ record { nonce = n; seen_at = now } ∷ []) in
    rw (mark_seen_new n now s w new) (
      refl,
      marked-has_seen n now s room before,
      omega (arith, length-take {0} s.max_entries sorted),
      marked_forgets_none n now s,
    )
