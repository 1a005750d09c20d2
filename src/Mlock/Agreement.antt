-- ===== src/Mlock/Agreement.antt =====
-- The two crates lock alike (crates/duende-mlock/src/unix.rs and
-- crates/duende-platform/src/memory.rs).
use duende.Prelude.{ℕ, Bool, true, false, Option, none, some}
use duende.Platform.Error.{PlatformError}
use duende.Platform.Error
use duende.Platform.Memory.{
  MlockResult, success, disabled, failed, lock_daemon_memory, apply_memory_config,
}
use duende.Platform.Memory
use duende.Mlock
use duende.Mlock.{MlockConfig, MlockStatus, MlockError, locked, as_flags, from_errno}
use duende.Mlock.System.{System, lock_with_config, locked_bytes}
use duende.Mlock.System

-- The settings with which the library makes the platform crate's call.
abbrev pub both : Bool → MlockConfig
both required = record { current = true; future = true; required = required; onfault = false }

-- The same outcome in the words of the two crates, in the same state.
pub data Agrees (y : System)
    : Mlock.Result MlockStatus × y.State → Error.Result MlockResult × y.State → Type 0 where
  both_locked :
      (bytes : ℕ) (s : y.State) → Agrees y (Mlock.ok (locked bytes), s) (Error.ok success, s)
  both_failed :
      (errno : ℕ) (s : y.State)
      → Agrees y (Mlock.ok (Mlock.failed errno), s) (Error.ok (failed errno), s)
  both_refused :
      (errno : ℕ) (e : PlatformError) (s : y.State)
      → Agrees y (Mlock.err (from_errno errno), s) (Error.err e, s)

module _ (y : System) where
  answered-Agrees :
      (required : Bool) (o : Option ℕ × y.State)
      → Agrees y (System.answered y (both required) o) (Memory.answered y required o)
  answered-Agrees required (none, s) = both_locked (locked_bytes y s) s
  answered-Agrees true (some errno, s) = both_refused errno _ s
  answered-Agrees false (some errno, s) = both_failed errno s

  -- The platform crate locks the memory as the library does with its current and future settings: both
  -- make the same call of the system and end in the same state, with the memory locked, with a failed
  -- status of one error number, or with an error.
  pub lock_daemon_memory-Agrees :
      (required : Bool) (s : y.State)
      → Agrees y (lock_with_config y (both required) s) (lock_daemon_memory y required s)
  unfolding lock_with_config lock_daemon_memory as_flags
  lock_daemon_memory-Agrees required s = answered-Agrees required (y.mlockall 3 s)
