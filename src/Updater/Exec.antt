-- ===== src/Updater/Exec.antt =====
-- The state of one update attempt, and its steps: a step goes on with a value, leaves `run` with an
-- exit code, or raises. `StatusFileWriter` of updater_root/status_writer.py is part of the state:
-- what is in memory, and what the file holds. The times of the entries are left out.
pub mod Hoare
use pv_inverter_master.Base.{
  ℕ, ◌+◌, String, Bool, true, false, Option, none, some, List, [], ◌∷◌, ◌++◌, if◌then◌else◌,
}
use pv_inverter_master.Updater.Phase.{Phase, trigger_received}

pub record HistoryEntry : Type 0 where
  pub phase : Phase
  pub error : Option String

pub record CurrentUpdate : Type 0 where
  pub nonce : String
  pub target_sha : String
  pub old_sha : String
  pub phase : Phase

-- The `_state` of the writer. `current` is none until `begin`.
pub record StatusState : Type 0 where
  pub current : Option CurrentUpdate
  pub history : List HistoryEntry

-- `link` is the release that the `current` symlink resolves to, `marker` the previous and the target
-- release of the pending marker, `flushes` the number of status writes so far.
pub record Run : Type 0 where
  pub status : StatusState
  pub status_file : Option StatusState
  pub flushes : ℕ
  pub link : String
  pub marker : Option (String × String)
  pub active_flag : Bool
  pub rollback_count : ℕ

-- EXIT_SUCCESS, EXIT_FAILURE, EXIT_ROLLBACK_DONE, EXIT_ROLLBACK_FAILED
pub data ExitCode : Type 0 where
  success failure rolled_back rollback_broken : ExitCode

-- A call of something outside the program: it returns, or raises.
pub data Out (A : Type 0) : Type 0 where
  ret : A → Out A
  raised : Out A

pub data Flow (A : Type 0) : Type 0 where
  next : A → Flow A
  exit : ExitCode → Flow A
  raise : Flow A

abbrev pub Step : Type 0 → Type 0
Step A = Run → Flow A × Run

unfoldable pub resume : {A B : Type 0} → (A → Step B) → Flow A → Step B
resume f (next a) r = f a r
resume f (exit c) r = (exit c, r)
resume f raise r = (raise, r)

infixl 5 ◌>>=◌ ◌>>◌
unfoldable pub ◌>>=◌ : {A B : Type 0} → Step A → (A → Step B) → Step B
unfolding resume
◌>>=◌ m f r = resume f (m r).0 (m r).1

unfoldable pub ◌>>◌ : {B : Type 0} → Step (Unit {0}) → Step B → Step B
unfolding ◌>>=◌
m >> k = m >>= λ _. k

unfoldable pub pure : {A : Type 0} → A → Step A
pure a r = (next a, r)

unfoldable pub leave : {A : Type 0} → ExitCode → Step A
leave c r = (exit c, r)

unfoldable pub call : {A : Type 0} → Out A → Step A
call (ret a) r = (next a, r)
call raised r = (raise, r)

unfoldable pub modify : (Run → Run) → Step (Unit {0})
modify f r = (next tt, f r)

-- How a write of the status file ends: it returns, it raises and leaves the file, or it raises after
-- the file was replaced (its mode could not be set).
pub data Written : Type 0 where
  written unwritten mode_unset : Written

pub flushed : Written → Step (Unit {0})
flushed written r = (next tt, record r { status_file = some r.status; flushes = r.flushes + 1 })
flushed unwritten r = (raise, record r { flushes = r.flushes + 1 })
flushed mode_unset r = (raise, record r { status_file = some r.status; flushes = r.flushes + 1 })

-- `_flush`, given how the n-th write of the file ends.
unfoldable pub flush : (ℕ → Written) → Step (Unit {0})
unfolding flushed
flush ok r = flushed (ok r.flushes) r

-- `begin`
unfoldable pub begin : (ℕ → Written) → String → String → String → Step (Unit {0})
unfolding flush
begin ok nonce target_sha old_sha r = flush ok (record r {
  status = record {
    current = some (record {
      nonce = nonce;
      target_sha = target_sha;
      old_sha = old_sha;
      phase = trigger_received;
    });
    history = record { phase = trigger_received; error = none } ∷ [];
  };
})

unfoldable pub write_current :
    (ℕ → Written) → Phase → Option String → Option CurrentUpdate → Step (Unit {0})
unfolding flush
write_current ok p error none r = (next tt, r)
write_current ok p error (some c) r = flush ok (record r {
  status = record {
    current = some (record c { phase = p });
    history = r.status.history ++ record { phase = p; error = error } ∷ [];
  };
})

-- `write_phase`; without a `begin` it does nothing.
unfoldable pub write_phase : (ℕ → Written) → Phase → Option String → Step (Unit {0})
unfolding write_current
write_phase ok p error r = write_current ok p error r.status.current r

-- `finalize`
unfoldable pub finalize : (ℕ → Written) → Phase → Step (Unit {0})
unfolding write_phase
finalize ok p = write_phase ok p none
