-- ===== src/Releases.antt =====
-- src/pv_inverter_proxy/releases.py: which release directories the retention deletes. The entries
-- of the releases root, what its `current` link resolves to, and the path that `resolve` gives for a
-- path (the path itself at an OSError), are inputs. A `keep` below 1 counts as 1, so it is a natural
-- number here.
pub mod Newest
pub mod Retained
mod Tests
use pv_inverter_master.Base.{
  ℕ, max, String, Bool, true, false, not, ◌&&◌, ◌||◌, Option, none, some, List, [], ◌∷◌, ◌++◌, ltb,
  map, str_eq, if◌then◌else◌, take,
}

pub data Kind : Type 0 where
  symlink directory file : Kind

pub record DirEntry : Type 0 where
  pub name : String
  pub path : String
  pub kind : Kind
  pub mtime : ℕ

abbrev is_directory : Kind → Bool
is_directory directory = true
is_directory _ = false

-- The link `current` of the root: none, one that `resolve` raises at, or one with a target that exists
-- or not.
pub data CurrentLink : Type 0 where
  no_link unresolvable : CurrentLink
  links_to : String → Bool → CurrentLink

pub record Root : Type 0 where
  pub entries : Option (List DirEntry)
  pub current : CurrentLink

-- `current_release_dir`
pub current_release_dir : CurrentLink → Option String
current_release_dir no_link = none
current_release_dir unresolvable = none
current_release_dir (links_to target exists) = if exists then some target else none

pub release_dirs : List DirEntry → List DirEntry
release_dirs [] = []
release_dirs (e ∷ es) =
    let others = release_dirs es in
    if not (str_eq e.name "current") && is_directory e.kind then e ∷ others else others

-- A stable sort by mtime, newest first.
pub place : DirEntry → List DirEntry → List DirEntry
place e [] = e ∷ []
place e (f ∷ fs) = if ltb f.mtime e.mtime then e ∷ f ∷ fs else f ∷ place e fs

pub newest_first : List DirEntry → List DirEntry → List DirEntry
unfolding place
newest_first sorted [] = sorted
newest_first sorted (e ∷ es) = newest_first (place e sorted) es

-- `none` is a root that is missing or no directory.
unfoldable pub list_release_dirs : Option (List DirEntry) → List DirEntry
unfolding release_dirs newest_first
list_release_dirs none = []
list_release_dirs (some entries) = newest_first [] (release_dirs entries)

-- `p in s`
unfoldable pub mem : String → List String → Bool
mem p [] = false
mem p (q ∷ qs) = str_eq q p || mem p qs

abbrev pub resolved : (String → String) → List DirEntry → List String
resolved resolve [] = []
resolved resolve (e ∷ es) = resolve e.path ∷ resolved resolve es

abbrev pub current_of : (String → String) → Option String → List String
current_of resolve none = []
current_of resolve (some c) = resolve c ∷ []

pub without : (String → String) → List String → List DirEntry → List DirEntry
without resolve retained [] = []
without resolve retained (e ∷ es) =
    let others = without resolve retained es in
    if mem (resolve e.path) retained then others else e ∷ others

-- The set `retained`.
abbrev pub retained_of :
    (String → String) → List DirEntry → ℕ → List String → Option String → List String
retained_of resolve all_dirs keep protect current =
    map resolve protect
    ++ (current_of resolve current ++ resolved resolve (take (max keep 1) all_dirs))

-- What is listed and not in the set. Without a release the source returns at once, with the same
-- result.
unfoldable pub select_releases_to_delete :
    (String → String) → Root → ℕ → List String → List DirEntry
unfolding without current_release_dir
select_releases_to_delete resolve root keep protect =
    let all_dirs = list_release_dirs root.entries in
    without resolve (retained_of resolve all_dirs keep protect (current_release_dir root.current))
      all_dirs
