-- ===== src/Platform/Native.antt =====
-- crates/duende-platform/src/native.rs, as compiled for Unix: processes of the system, signalled by
-- `kill`.
use duende.Prelude.{ℕ, ◌-◌, Option, none, some, ◌++◌, ltb, ◌==◌, if◌then◌else◌}
use duende.Prelude.Text.{chars}
use duende.Prelude.Decimal.{to_string}
use duende.Core.Types.{ℤ, pos, negsuc, DaemonStatus, running, stopped, Signal}
use duende.Core.Adapter.{text, with_code}
use duende.Core.Adapters.Native.{Spawned, spawn_error, no_pid, started}
use duende.Platform.Error.{PlatformError, Result, ok, err}
use duende.Platform.Handle.{DaemonHandle, TracerHandle, native, native_handle}

-- `kill` takes the number of a process and a signal, or none to test the process, and gives its error
-- number if it fails.
pub record Processes : Type 1 where
  pub State : Type 0
  pub spawn : State → Spawned × State
  pub kill : ℤ → Option Signal → State → Option ℕ × State

-- `as i32` of a u32.
unfoldable pub as_i32 : ℕ → ℤ
as_i32 n = if ltb n 2147483648 then pos n else negsuc (4294967295 - n)

-- ESRCH: no such process.
abbrev pub esrch : ℕ
esrch = 3

abbrev pub status_answer : Option ℕ → Result DaemonStatus
status_answer none = ok running
status_answer (some errno) =
    if errno == esrch
    then ok stopped
    else err (PlatformError.status (with_code "failed to check process: " errno))

abbrev pub tracer_answer : ℕ → Option ℕ → Result TracerHandle
tracer_answer pid none = ok record { platform = native; id = chars "renacer:" ++ to_string pid }
tracer_answer pid (some errno) =
    if errno == esrch
    then err (PlatformError.tracer (with_code "process does not exist: " pid))
    else err (PlatformError.tracer (with_code "cannot verify process: " errno))

abbrev pub sent : Option ℕ → Result (Unit {0})
sent none = ok tt
sent (some errno) = err (PlatformError.signal (with_code "kill failed: " errno))

module _ (p : Processes) where
  abbrev pub spawned : Spawned × p.State → Result DaemonHandle × p.State
  spawned (spawn_error code, s) =
      (err (PlatformError.spawn (with_code "failed to spawn process: " code)), s)
  spawned (no_pid, s) = (err (PlatformError.spawn (text "process has no PID")), s)
  spawned (started pid, s) = (ok (native_handle pid), s)

  -- The program is `/bin/sh`, whatever the daemon.
  unfoldable pub spawn : p.State → Result DaemonHandle × p.State
  spawn s = spawned (p.spawn s)

  unfoldable pub send_signal : DaemonHandle → Signal → p.State → Result (Unit {0}) × p.State
  unfolding as_i32
  send_signal h sig s = elim h.pid [
    | none ↦ (err (PlatformError.signal (text "no PID available")), s)
    | some pid ↦ (sent (p.kill (as_i32 pid) (some sig) s).0, (p.kill (as_i32 pid) (some sig) s).1)
  ]

  unfoldable pub status : DaemonHandle → p.State → Result DaemonStatus × p.State
  unfolding as_i32
  status h s = elim h.pid [
    | none ↦ (err (PlatformError.status (text "no PID available")), s)
    | some pid ↦ (status_answer (p.kill (as_i32 pid) none s).0, (p.kill (as_i32 pid) none s).1)
  ]

  unfoldable pub attach_tracer : DaemonHandle → p.State → Result TracerHandle × p.State
  unfolding as_i32
  attach_tracer h s = elim h.pid [
    | none ↦ (err (PlatformError.tracer (text "no PID available")), s)
    | some pid ↦ (tracer_answer pid (p.kill (as_i32 pid) none s).0, (p.kill (as_i32 pid) none s).1)
  ]
