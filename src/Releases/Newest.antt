-- ===== src/Releases/Newest.antt =====
-- The order of `list_release_dirs`: newest first, and the same directories as in the root.
use pv_inverter_master.Base.{
  ℕ, ◌≤◌, ◌≡◌, refl, String, Bool, false, ◌||◌, Option, none, some, List, [], ◌∷◌, ltb, str_eq,
  arith, Bool-cases, inl, inr,
}
use pv_inverter_master.Releases.{
  DirEntry, release_dirs, place, newest_first, list_release_dirs, without, mem,
}

-- A path is among the entries.
unfoldable pub listed : String → List DirEntry → Bool
listed p [] = false
listed p (e ∷ es) = str_eq e.path p || listed p es

-- The directories of a root that are releases, in the order of the file system.
abbrev pub releases_of : Option (List DirEntry) → List DirEntry
unfolding release_dirs
releases_of none = []
releases_of (some es) = release_dirs es

-- No entry is newer than a time.
abbrev pub AllUpTo : ℕ → List DirEntry → Type 0
AllUpTo t [] = Unit
AllUpTo t (e ∷ es) = (e.mtime ≤ t) × AllUpTo t es

-- No entry is newer than one before it.
abbrev pub IsNewestFirst : List DirEntry → Type 0
IsNewestFirst [] = Unit
IsNewestFirst (e ∷ es) = AllUpTo e.mtime es × IsNewestFirst es

-- No entry of the second list is newer than any of the first.
abbrev pub NoneNewer : List DirEntry → List DirEntry → Type 0
NoneNewer [] others = Unit
NoneNewer (e ∷ es) others = AllUpTo e.mtime others × NoneNewer es others

AllUpTo-later : (a b : ℕ) (es : List DirEntry) → a ≤ b → AllUpTo a es → AllUpTo b es
AllUpTo-later a b [] h k = tt
AllUpTo-later a b (e ∷ es) h k = (omega (arith, k.0), AllUpTo-later a b es h k.1)

place-AllUpTo :
    (t : ℕ) (e : DirEntry) (es : List DirEntry)
    → e.mtime ≤ t
    → AllUpTo t es
    → AllUpTo t (place e es)
unfolding place
place-AllUpTo t e [] h k = (h, tt)
place-AllUpTo t e (f ∷ fs) h k = ground (arith, place-AllUpTo t e fs h k.1)

place-IsNewestFirst :
    (e : DirEntry) (es : List DirEntry) → IsNewestFirst es → IsNewestFirst (place e es)
unfolding place
place-IsNewestFirst e [] h = (tt, tt)
place-IsNewestFirst e (f ∷ fs) h = elim (Bool-cases (ltb f.mtime e.mtime)) [
  | inl newer ↦
      let later : f.mtime ≤ e.mtime = ground arith in
      rw newer ((later, AllUpTo-later f.mtime e.mtime fs later h.0), h)
  | inr older ↦
      let earlier : e.mtime ≤ f.mtime = ground arith in
      rw older (place-AllUpTo f.mtime e fs earlier h.0, place-IsNewestFirst e fs h.1)
]

newest_first-IsNewestFirst :
    (sorted es : List DirEntry) → IsNewestFirst sorted → IsNewestFirst (newest_first sorted es)
unfolding newest_first
newest_first-IsNewestFirst sorted [] h = h
newest_first-IsNewestFirst sorted (e ∷ es) h =
    newest_first-IsNewestFirst (place e sorted) es (place-IsNewestFirst e sorted h)

pub list_release_dirs-IsNewestFirst :
    (o : Option (List DirEntry)) → IsNewestFirst (list_release_dirs o)
unfolding list_release_dirs
list_release_dirs-IsNewestFirst none = tt
list_release_dirs-IsNewestFirst (some es) = newest_first-IsNewestFirst [] (release_dirs es) tt

listed-place :
    (p : String) (e : DirEntry) (es : List DirEntry)
    → listed p (place e es) ≡ (str_eq e.path p || listed p es)
unfolding place listed
listed-place p e [] = refl
listed-place p e (f ∷ fs) = ground (arith, listed-place p e fs)

listed-newest_first :
    (p : String) (sorted es : List DirEntry)
    → listed p (newest_first sorted es) ≡ (listed p sorted || listed p es)
unfolding newest_first listed
listed-newest_first p sorted [] = ground arith
listed-newest_first p sorted (e ∷ es) =
    ground (arith, listed-newest_first p (place e sorted) es, listed-place p e sorted)

pub listed-list_release_dirs :
    (p : String) (o : Option (List DirEntry))
    → listed p (list_release_dirs o) ≡ listed p (releases_of o)
unfolding list_release_dirs listed
listed-list_release_dirs p none = refl
listed-list_release_dirs p (some es) = listed-newest_first p [] (release_dirs es)

pub without-AllUpTo :
    (resolve : String → String) (r : List String) (t : ℕ) (es : List DirEntry)
    → AllUpTo t es
    → AllUpTo t (without resolve r es)
unfolding without
without-AllUpTo resolve r t [] h = tt
without-AllUpTo resolve r t (e ∷ es) h = elim (Bool-cases (mem (resolve e.path) r)) [
  | inl kept ↦ rw kept (without-AllUpTo resolve r t es h.1)
  | inr gone ↦ rw gone (h.0, without-AllUpTo resolve r t es h.1)
]
