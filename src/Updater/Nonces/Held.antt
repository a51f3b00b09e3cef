-- ===== src/Updater/Nonces/Held.antt =====
-- How long the store keeps a nonce: its place among the newest.
use pv_inverter_master.Base.{
  ℕ, zero, suc, ◌≤◌, ◌<◌, ◌≡◌, refl, ap, ◌∙◌, String, true, false, List, [], ◌∷◌, ◌++◌, str_eq,
  str_eq_self, ltb, take, arith, Bool-cases, inl, inr,
}
use pv_inverter_master.Updater.Exec.{Written, written, unwritten, mode_unset}
use pv_inverter_master.Updater.Nonces.{
  Entry, NonceDedupStore, seen_in, insert_newest, sort_onto, save, saved, has_seen, mark_seen,
}
use pv_inverter_master.Updater.Nonces.Retention.{
  AllBefore, insert_newest-AllBefore, sort_onto-append, sort_onto-AllBefore, insert_newest-first,
}

-- No entry is newer than one before it.
abbrev IsNewestFirst : List Entry → Type 0
IsNewestFirst [] = Unit
IsNewestFirst (e ∷ es) = AllBefore (suc e.seen_at) es × IsNewestFirst es

AllBefore-later : (a b : ℕ) (es : List Entry) → a ≤ b → AllBefore a es → AllBefore b es
AllBefore-later a b [] h k = tt
AllBefore-later a b (e ∷ es) h k = (omega (arith, k.0), AllBefore-later a b es h k.1)

insert_newest-IsNewestFirst :
    (e : Entry) (es : List Entry) → IsNewestFirst es → IsNewestFirst (insert_newest e es)
unfolding insert_newest
insert_newest-IsNewestFirst e [] h = (tt, tt)
insert_newest-IsNewestFirst e (f ∷ fs) h = elim (Bool-cases (ltb f.seen_at e.seen_at)) [
  | inl newer ↦
      let later : f.seen_at < e.seen_at = ground arith in
      rw newer
        ((omega arith, AllBefore-later (suc f.seen_at) (suc e.seen_at) fs (omega arith) h.0), h)
  | inr older ↦
      let earlier : e.seen_at < suc f.seen_at = ground arith in
      rw older (
        insert_newest-AllBefore (suc f.seen_at) e fs earlier h.0,
        insert_newest-IsNewestFirst e fs h.1,
      )
]

sort_onto-IsNewestFirst :
    (done es : List Entry) → IsNewestFirst done → IsNewestFirst (sort_onto done es)
unfolding sort_onto
sort_onto-IsNewestFirst done [] h = h
sort_onto-IsNewestFirst done (e ∷ es) h =
    sort_onto-IsNewestFirst (insert_newest e done) es (insert_newest-IsNewestFirst e done h)

take-AllBefore : (k t : ℕ) (es : List Entry) → AllBefore t es → AllBefore t (take k es)
take-AllBefore zero t es h = tt
take-AllBefore (suc k) t [] h = tt
take-AllBefore (suc k) t (e ∷ es) h = (h.0, take-AllBefore k t es h.1)

take-IsNewestFirst : (k : ℕ) (es : List Entry) → IsNewestFirst es → IsNewestFirst (take k es)
take-IsNewestFirst zero es h = tt
take-IsNewestFirst (suc k) [] h = tt
take-IsNewestFirst (suc k) (e ∷ es) h =
    (take-AllBefore k (suc e.seen_at) es h.0, take-IsNewestFirst k es h.1)

-- The oldest of a sorted list is inserted at its end.
middle-before :
    (t : ℕ) (ds es : List Entry) (e : Entry) → AllBefore t (ds ++ e ∷ es) → e.seen_at < t
middle-before t [] es e h = h.0
middle-before t (d ∷ ds) es e h = middle-before t ds es e h.1

insert_newest-last :
    (ds es : List Entry) (e : Entry)
    → IsNewestFirst (ds ++ e ∷ es)
    → insert_newest e ds ≡ ds ++ e ∷ []
unfolding insert_newest
insert_newest-last [] es e h = refl
insert_newest-last (d ∷ ds) es e h =
    ground (arith, middle-before (suc d.seen_at) ds es e h.0, insert_newest-last ds es e h.1)

append_snoc : (ds es : List Entry) (e : Entry) → (ds ++ e ∷ []) ++ es ≡ ds ++ e ∷ es
append_snoc [] es e = refl
append_snoc (d ∷ ds) es e = ap (λ xs. d ∷ xs) (append_snoc ds es e)

append_nil : (ds : List Entry) → ds ++ [] ≡ ds
append_nil [] = refl
append_nil (d ∷ ds) = ap (λ xs. d ∷ xs) (append_nil ds)

-- Sorting a list that is sorted leaves it.
sort_onto-sorted : (ds es : List Entry) → IsNewestFirst (ds ++ es) → sort_onto ds es ≡ ds ++ es
unfolding sort_onto
sort_onto-sorted ds [] h = rw append_nil refl
sort_onto-sorted ds (e ∷ es) h =
    rw (insert_newest-last ds es e h)
      (sort_onto-sorted (ds ++ e ∷ []) es (rw append_snoc h) ∙ append_snoc ds es e)

seen_in-take_later :
    (n : String) (k : ℕ) (es : List Entry)
    → seen_in n (take k es) ≡ true
    → seen_in n (take (suc k) es) ≡ true
unfolding seen_in
seen_in-take_later n zero es h = absurd (cc)
seen_in-take_later n (suc k) [] h = absurd (cc)
seen_in-take_later n (suc k) (e ∷ es) h = elim (Bool-cases (str_eq e.nonce n)) [
  | inl here ↦ rw here refl
  | inr there ↦ rw there (seen_in-take_later n k es (rw there at h))
]

-- One more entry moves a nonce by at most one place.
seen_in-insert_newest_later :
    (n : String) (e : Entry) (k : ℕ) (es : List Entry)
    → seen_in n (take k es) ≡ true
    → seen_in n (take (suc k) (insert_newest e es)) ≡ true
unfolding seen_in insert_newest
seen_in-insert_newest_later n e zero es h = absurd (cc)
seen_in-insert_newest_later n e (suc k) [] h = absurd (cc)
seen_in-insert_newest_later n e (suc k) (f ∷ fs) h =
    ground (arith, h, seen_in-insert_newest_later n e k fs)

take-take : (k m : ℕ) (es : List Entry) → k ≤ m → take k (take m es) ≡ take k es
take-take zero m es h = refl
take-take (suc k) zero es h = absurd (omega arith)
take-take (suc k) (suc m) [] h = refl
take-take (suc k) (suc m) (e ∷ es) h = ap (λ xs. e ∷ xs) (take-take k m es (omega arith))

seen_in-take :
    (n : String) (k : ℕ) (es : List Entry) → seen_in n (take k es) ≡ true → seen_in n es ≡ true
unfolding seen_in
seen_in-take n zero es h = absurd (cc)
seen_in-take n (suc k) [] h = absurd (cc)
seen_in-take n (suc k) (e ∷ es) h = elim (Bool-cases (str_eq e.nonce n)) [
  | inl here ↦ rw here refl
  | inr there ↦ rw there (seen_in-take n k es (rw there at h))
]

-- A nonce is among the `k` newest of a store that is sorted.
pub record Held (k : ℕ) (n : String) (s : NonceDedupStore) : Type 0 where
  pub sorted : IsNewestFirst s.entries
  pub found : seen_in n (take k s.entries) ≡ true

pub Held-has_seen : (k : ℕ) (n : String) (s : NonceDedupStore) → Held k n s → has_seen n s ≡ true
unfolding has_seen
Held-has_seen k n s h = seen_in-take n k s.entries h.found

pub Held-later : (k : ℕ) (n : String) (s : NonceDedupStore) → Held k n s → Held (suc k) n s
Held-later k n s h = record { sorted = h.sorted; found = seen_in-take_later n k s.entries h.found }

module _ (k : ℕ) (n : String) (e : Entry) (s : NonceDedupStore) where
  abbrev grown : NonceDedupStore
  grown = record s { entries = take s.max_entries (sort_onto [] (s.entries ++ e ∷ [])) }

  grown-Held : suc k ≤ s.max_entries → Held k n s → Held (suc k) n grown
  grown-Held room h = record {
    sorted =
        take-IsNewestFirst s.max_entries (sort_onto [] (s.entries ++ e ∷ []))
          (sort_onto-IsNewestFirst [] (s.entries ++ e ∷ []) tt);
    found =
        rw
          (
            take-take (suc k) s.max_entries (sort_onto [] (s.entries ++ e ∷ [])) room,
            sort_onto-append [] s.entries e,
            sort_onto-sorted [] s.entries h.sorted,
          )
          (seen_in-insert_newest_later n e k s.entries h.found);
  }

  saved-Held :
      (w : Written) → suc k ≤ s.max_entries → Held k n s → Held (suc k) n (saved w grown s).0
  unfolding saved
  saved-Held written room h = grown-Held room h
  saved-Held unwritten room h = Held-later k n s h
  saved-Held mode_unset room h = grown-Held room h

-- After another nonce was marked, at whatever time and however the save ends, a nonce is at most one
-- place further.
pub mark_seen-Held :
    (k : ℕ) (n m : String) (now : ℕ) (s : NonceDedupStore)
    → suc k ≤ s.max_entries
    → Held k n s
    → Held (suc k) n (mark_seen m now s).0
unfolding mark_seen save
mark_seen-Held k n m now s room h = elim (Bool-cases (seen_in m s.entries)) [
  | inl old ↦ rw old (Held-later k n s h)
  | inr new ↦ rw new (saved-Held k n (record { nonce = m; seen_at = now }) s s.saving room h)
]

saved-max :
    (w : Written) (e : Entry) (s : NonceDedupStore)
    → (saved w
        (record s { entries = take s.max_entries (sort_onto [] (s.entries ++ e ∷ [])) })
        s).0.max_entries
      ≡ s.max_entries
unfolding saved
saved-max written e s = refl
saved-max unwritten e s = refl
saved-max mode_unset e s = refl

pub mark_seen-max :
    (m : String) (now : ℕ) (s : NonceDedupStore) → (mark_seen m now s).0.max_entries ≡ s.max_entries
unfolding mark_seen save
mark_seen-max m now s = elim (Bool-cases (seen_in m s.entries)) [
  | inl old ↦ rw old refl
  | inr new ↦ rw new (saved-max s.saving (record { nonce = m; seen_at = now }) s)
]

first-found :
    (n : String) (now k : ℕ) (es : List Entry)
    → seen_in n (take (suc k) (record { nonce = n; seen_at = now } ∷ es)) ≡ true
unfolding seen_in
first-found n now k es = rw str_eq_self refl

saved_kept :
    (w : Written) (n : String) (new old : NonceDedupStore)
    → (saved w new old).1 ≡ true
    → Held 1 n new
    → Held 1 n (saved w new old).0
unfolding saved
saved_kept written n new old kept h = h
saved_kept unwritten n new old kept h = absurd (cc)
saved_kept mode_unset n new old kept h = absurd (cc)

-- A nonce that was just marked, later than all that are stored, is the newest.
pub mark_seen_first :
    (n : String) (now : ℕ) (s : NonceDedupStore)
    → has_seen n s ≡ false
    → (mark_seen n now s).1 ≡ true
    → 1 ≤ s.max_entries
    → AllBefore now s.entries
    → Held 1 n (mark_seen n now s).0
unfolding mark_seen save has_seen
mark_seen_first n now s new kept room before =
    let e : Entry = record { nonce = n; seen_at = now } in
    let all = sort_onto [] (s.entries ++ e ∷ []) in
    let rest = sort_onto [] s.entries in
    let held : Held 1 n (grown 1 n e s) = record {
      sorted =
          take-IsNewestFirst s.max_entries all
            (sort_onto-IsNewestFirst [] (s.entries ++ e ∷ []) tt);
      found =
          rw
            (
              take-take 1 s.max_entries all room,
              sort_onto-append [] s.entries e,
              insert_newest-first e rest (sort_onto-AllBefore now [] s.entries tt before),
            )
            (first-found n now 0 rest);
    } in
    rw new (saved_kept s.saving n (grown 1 n e s) s (rw new at kept) held)
