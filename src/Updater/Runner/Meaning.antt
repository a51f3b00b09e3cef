-- ===== src/Updater/Runner/Meaning.antt =====
-- What an exit code of `UpdateRunner.run` means, and what an exception may leave.
use pv_inverter_master.Base.{String, Bool, true, false, Option, none, some, ◌≡◌, ◌⊎◌}
use pv_inverter_master.Updater.Phase.{Phase, done, rollback_done, rollback_failed}
use pv_inverter_master.Updater.Exec.{
  Run, ExitCode, success, failure, rolled_back, rollback_broken, Out, ret, raised,
}
use pv_inverter_master.Updater.Exec.Hoare.{phase_of}
use pv_inverter_master.Updater.Runner.{World, TriggerRead, valid, refused, passed}

-- The release that the trigger asks for.
unfoldable pub target_of : World → Out TriggerRead → String
target_of w (ret (valid t)) = w.new_release t.target_sha
target_of w (ret refused) = ""
target_of w raised = ""

-- The attempt ended before the switch, with the release `old` and the marker `m` as they were.
abbrev pub Untouched : String → Option (String × String) → Run → Type 0
Untouched old m r =
    ((phase_of r.status.current ≡ none) ⊎ (phase_of r.status.current ≡ some rollback_failed))
    × (r.link ≡ old)
    × (r.marker ≡ m)

-- The rollback did not succeed: the marker is still there.
abbrev pub Stranded : String → String → Run → Type 0
Stranded old new r =
    (phase_of r.status.current ≡ some rollback_failed) × (r.marker ≡ some (old, new))

-- The unlink of the marker succeeded, and there is none; or it failed, and `m` is still there.
abbrev pub IsCleared : Out Bool → Option (String × String) → Run → Type 0
IsCleared o m r = ((o ≡ ret true) × (r.marker ≡ none)) ⊎ ((o ≡ ret false) × (r.marker ≡ m))

-- The attempt is over in the phase `p` with the release `l`, and the marker `m` was to be unlinked.
abbrev pub Finished : Phase → String → Out Bool → Option (String × String) → Run → Type 0
Finished p l o m r = (phase_of r.status.current ≡ some p) × (r.link ≡ l) × IsCleared o m r

-- What each exit code of a `return` means.
unfoldable pub Exits : World → String → Option (String × String) → ExitCode → Run → Type 0
Exits w old m success r =
    let new = target_of w w.read_trigger in
    (w.health ≡ ret passed) × Finished done new w.clear_marker (some (old, new)) r
Exits w old m failure r = Untouched old m r
Exits w old m rolled_back r =
    (w.health_back ≡ ret passed)
    × Finished rollback_done old w.clear_marker_back (some (old, target_of w w.read_trigger)) r
Exits w old m rollback_broken r = Stranded old (target_of w w.read_trigger) r

-- The old release runs, or the marker names it, or the new one passed its health check.
abbrev pub Recoverable : World → String → Run → Type 0
Recoverable w old r =
    (r.link ≡ old) ⊎ (r.marker ≡ some (old, target_of w w.read_trigger)) ⊎ (w.health ≡ ret passed)

-- What `run` leaves: as `Exits`, but a failure may also be an exception that was caught.
unfoldable pub Left : World → String → Option (String × String) → ExitCode × Run → Type 0
Left w old m (success, r) = Exits w old m success r
Left w old m (failure, r) =
    ((phase_of r.status.current ≡ none) ⊎ (phase_of r.status.current ≡ some rollback_failed))
    × Recoverable w old r
Left w old m (rolled_back, r) = Exits w old m rolled_back r
Left w old m (rollback_broken, r) = Exits w old m rollback_broken r
