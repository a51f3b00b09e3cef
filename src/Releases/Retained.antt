-- ===== src/Releases/Retained.antt =====
-- What the retention of releases deletes, and what it keeps.
use pv_inverter_master.Base.{
  ℕ, zero, suc, ◌+◌, ◌≤◌, ◌≡◌, refl, ap, ◌∙◌, min, max, inl, inr, String, Bool, true, not, ◌&&◌,
  ◌||◌, List, [], ◌∷◌, ◌++◌, map, str_eq, eq_iff, take, length, arith, Bool-cases, str_eq_self,
}
use pv_inverter_master.Releases.{
  DirEntry, Root, mem, resolved, current_of, without, select_releases_to_delete, list_release_dirs,
  current_release_dir, retained_of,
}
use pv_inverter_master.Releases.Newest.{
  listed, releases_of, IsNewestFirst, NoneNewer, list_release_dirs-IsNewestFirst,
  listed-list_release_dirs, without-AllUpTo,
}

mem-append : (p : String) (xs ys : List String) → mem p (xs ++ ys) ≡ (mem p xs || mem p ys)
unfolding mem
mem-append p [] ys = refl
mem-append p (x ∷ xs) ys = ground (arith, mem-append p xs ys)

listed-without :
    (resolve : String → String) (retained : List String) (p : String) (es : List DirEntry)
    → listed p (without resolve retained es) ≡ (listed p es && not (mem (resolve p) retained))
unfolding listed without
listed-without resolve retained p [] = refl
listed-without resolve retained p (e ∷ es) = elim (Bool-cases (str_eq e.path p)) [
  | inl same ↦
      let at : resolve e.path ≡ resolve p = ap resolve ((eq_iff e.path p).0 same) in
      let rest = listed-without resolve retained p es in rw at (ground (arith, same, rest))
  | inr other ↦ let rest = listed-without resolve retained p es in ground (arith, other, rest)
]

split : (a b c d : Bool) → (a && not (b || (c || d))) ≡ (a && not b && not c && not d)
split a b c d = ground arith

without-length :
    (resolve : String → String) (r : List String) (es : List DirEntry)
    → length (without resolve r es) ≤ length es
unfolding without
without-length resolve r [] = omega arith
without-length resolve r (e ∷ es) = ground (arith, without-length resolve r es)

without-newest :
    (resolve : String → String) (n : ℕ) (r : List String) (es : List DirEntry)
    → ((q : String) → mem q (resolved resolve (take n es)) ≡ true → mem q r ≡ true)
    → length (without resolve r es) + min n (length es) ≤ length es
unfolding without mem
without-newest resolve zero r es h = omega (arith, without-length resolve r es)
without-newest resolve (suc n) r [] h = omega arith
without-newest resolve (suc n) r (e ∷ es) h =
    let here : mem (resolve e.path) r ≡ true =
      h (resolve e.path) (ground (arith, str_eq_self (resolve e.path))) in
    let rest = without-newest resolve n r es (λ q m. h q (ground (arith, m))) in
    rw here (omega (arith, rest))

-- Of a list that is newest first, whose first entries are retained, nothing newer than those is
-- deleted.
without-NoneNewer :
    (resolve : String → String) (n : ℕ) (r : List String) (es : List DirEntry)
    → IsNewestFirst es
    → ((q : String) → mem q (resolved resolve (take n es)) ≡ true → mem q r ≡ true)
    → NoneNewer (take n es) (without resolve r es)
unfolding without mem
without-NoneNewer resolve zero r es s h = tt
without-NoneNewer resolve (suc n) r [] s h = tt
without-NoneNewer resolve (suc n) r (e ∷ es) s h =
    let here : mem (resolve e.path) r ≡ true =
      h (resolve e.path) (ground (arith, str_eq_self (resolve e.path))) in
    let rest = without-NoneNewer resolve n r es s.1 (λ q m. h q (ground (arith, m))) in
    rw here (without-AllUpTo resolve r e.mtime es s.0, rest)

module _ (resolve : String → String) (root : Root) (keep : ℕ) (protect : List String) where
  abbrev dirs : List DirEntry
  dirs = list_release_dirs root.entries

  abbrev newest : List DirEntry
  newest = take (max keep 1) dirs

  abbrev now : List String
  now = current_of resolve (current_release_dir root.current)

  newest-retained :
      (q : String)
      → mem q (resolved resolve newest) ≡ true
      → mem q (retained_of resolve dirs keep protect (current_release_dir root.current)) ≡ true
  newest-retained q m =
      let outer = mem-append q (map resolve protect) (now ++ resolved resolve newest) in
      let inner = mem-append q now (resolved resolve newest) in ground (arith, outer, inner, m)

  -- A path is deleted exactly if it is a release directory of the root that is neither protected by
  -- the caller, nor the current release, nor one of those that stay for their age; these are the
  -- first `keep` (at least one) of the list, and no deleted directory is newer than any of them.
  pub listed-select_releases_to_delete :
      (p : String)
      → let deleted = select_releases_to_delete resolve root keep protect in
        (listed p deleted ≡ (
          listed p (releases_of root.entries)
          && not (mem (resolve p) (map resolve protect))
          && not (mem (resolve p) now)
          && not (mem (resolve p) (resolved resolve newest))))
        × NoneNewer newest deleted
  unfolding select_releases_to_delete
  listed-select_releases_to_delete p =
      let outer = mem-append (resolve p) (map resolve protect) (now ++ resolved resolve newest) in
      let inner = mem-append (resolve p) now (resolved resolve newest) in
      let retained = map resolve protect ++ (now ++ resolved resolve newest) in
      (
        listed-without resolve retained p dirs
            ∙ (rw (outer, inner, listed-list_release_dirs p root.entries)
                (split (listed p (releases_of root.entries)) (mem (resolve p) (map resolve protect))
                  (mem (resolve p) now) (mem (resolve p) (resolved resolve newest)))),
        without-NoneNewer resolve (max keep 1) retained dirs
            (list_release_dirs-IsNewestFirst root.entries) newest-retained,
      )

  -- At least the `keep` newest releases (at least one) stay, or all if there are fewer.
  pub length-select_releases_to_delete :
      length (select_releases_to_delete resolve root keep protect) + min (max keep 1) (length dirs)
      ≤ length dirs
  unfolding select_releases_to_delete
  length-select_releases_to_delete =
      without-newest resolve (max keep 1)
        (retained_of resolve dirs keep protect (current_release_dir root.current)) dirs
        newest-retained
