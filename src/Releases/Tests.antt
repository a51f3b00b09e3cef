-- ===== src/Releases/Tests.antt =====
-- The theorems of the retention at a root with four releases of different ages.
use pv_inverter_master.Base.{
  String, ℕ, true, not, ◌&&◌, ◌+◌, ◌≤◌, ◌≡◌, refl, [], ◌∷◌, some, length, take, max, map,
}
use pv_inverter_master.Releases.{
  DirEntry, directory, symlink, file, Root, links_to, mem, resolved, current_of,
  select_releases_to_delete, list_release_dirs, current_release_dir,
}
use pv_inverter_master.Releases.Newest.{listed, releases_of, NoneNewer}
use pv_inverter_master.Releases.Retained.{
  listed-select_releases_to_delete, length-select_releases_to_delete,
}

abbrev resolve : String → String
resolve p = p

abbrev release : String → ℕ → DirEntry
release p t = record { name = p; path = p; kind = directory; mtime = t }

abbrev root : Root
root = record {
  entries = some (
      release "r1" 10
      ∷ record { name = "current"; path = "current"; kind = symlink; mtime = 50 }
      ∷ release "r4" 40
      ∷ release "r2" 20
      ∷ record { name = "notes"; path = "notes"; kind = file; mtime = 60 }
      ∷ release "r3" 30
      ∷ []);
  current = links_to "r3" true;
}

-- With one to keep and one protected, only the oldest goes.
oldest_goes : select_releases_to_delete resolve root 1 ("r2" ∷ []) ≡ release "r1" 10 ∷ []
unfolding select_releases_to_delete list_release_dirs mem
oldest_goes = refl

listed-select_releases_to_delete_example :
    (listed "r1" (select_releases_to_delete resolve root 1 ("r2" ∷ [])) ≡ (
      listed "r1" (releases_of root.entries)
      && not (mem "r1" (map resolve ("r2" ∷ [])))
      && not (mem "r1" (current_of resolve (current_release_dir root.current)))
      && not (mem "r1" (resolved resolve (take (max 1 1) (list_release_dirs root.entries))))))
    × NoneNewer
        (take (max 1 1) (list_release_dirs root.entries))
        (select_releases_to_delete resolve root 1 ("r2" ∷ []))
listed-select_releases_to_delete_example =
    listed-select_releases_to_delete resolve root 1 ("r2" ∷ []) "r1"

length-select_releases_to_delete_example :
    length (select_releases_to_delete resolve root 2 []) + 2 ≤ 4
unfolding list_release_dirs
length-select_releases_to_delete_example = length-select_releases_to_delete resolve root 2 []
