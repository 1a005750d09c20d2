-- ===== src/Core/Adapters/Native.antt =====
-- crates/duende-core/src/adapters/native.rs, as compiled for Unix: processes that the daemon manager
-- starts itself. `tokio` and `nix` are an interface to the processes of the system.
pub mod Table
use duende.Prelude.{
  ℕ, zero, suc, ◌+◌, ◌-◌, ◌/◌, ◌≤◌, Bool, true, false, Option, none, some, List, [], ◌∷◌, length,
  ltb, if◌then◌else◌,
}
use duende.Prelude.Map.{insert, remove, lookup}
use duende.Core.Types.{
  DaemonId, DaemonStatus, running, stopped, failed, FailureReason, signal, exit_code, ℤ, pos,
  Signal, term, kill,
}
use duende.Core.Adapter.{
  PlatformError, PlatformResult, err, ok, not_found, signal_failed, spawn_failed, status_failed,
  text, with_code, of_id, DaemonHandle, native_handle, TracerHandle, ptrace, pid,
}

pub data ExitStatus : Type 0 where
  exited signalled : ℤ → ExitStatus

pub data Poll : Type 0 where
  alive : Poll
  ended : ExitStatus → Poll
  unknown : ℕ → Poll

pub data Spawned : Type 0 where
  spawn_error : ℕ → Spawned
  no_pid : Spawned
  started : ℕ → Spawned

-- A child is known by the number that its process has or had.
pub record Children : Type 1 where
  pub State : Type 0
  pub spawn : State → Spawned × State
  pub send : ℕ → Signal → State → Option ℕ × State
  pub start_kill : ℕ → State → State
  pub try_wait : ℕ → State → Poll × State
  pub now : State → ℕ
  pub sleep : ℕ → State → State
  pub send_takes : (p : ℕ) (sig : Signal) (s : State) → now s ≤ now (send p sig s).1
  pub try_wait_takes : (p : ℕ) (s : State) → now s ≤ now (try_wait p s).1
  pub sleep_takes : (n : ℕ) (s : State) → now s + n ≤ now (sleep n s)

abbrev pub status_of : ExitStatus → DaemonStatus
status_of (exited (pos zero)) = stopped
status_of (exited code) = failed (exit_code code)
status_of (signalled sig) = failed (signal sig)

abbrev pub is_kill : Signal → Bool
is_kill kill = true
is_kill _ = false

abbrev pub stop_wait : ℕ
stop_wait = 50000000

module _ (k : Children) where
  -- The table of the children, and the system.
  pub record NativeAdapter : Type 0 where
    pub processes : List (DaemonId × ℕ)
    pub system : k.State

  abbrev pub process_count : NativeAdapter → ℕ
  process_count a = length a.processes

  abbrev pub new : k.State → NativeAdapter
  new s = record { processes = []; system = s }

  abbrev pub spawned :
      DaemonId
      → List (DaemonId × ℕ)
      → Spawned × k.State
      → PlatformResult DaemonHandle × NativeAdapter
  unfolding insert
  spawned id ps (spawn_error code, s) = (
    err (spawn_failed (with_code "failed to spawn: " code)),
    record { processes = ps; system = s },
  )
  spawned id ps (no_pid, s) =
      (err (spawn_failed (text "failed to get PID")), record { processes = ps; system = s })
  spawned id ps (started p, s) =
      (ok (native_handle id p), record { processes = insert id p ps; system = s })

  -- The process that is started is `/bin/sleep`, whatever the daemon.
  unfoldable pub spawn : DaemonId → NativeAdapter → PlatformResult DaemonHandle × NativeAdapter
  unfolding spawned
  spawn id a = spawned id a.processes (k.spawn a.system)

  -- After the call that sends the signal.
  abbrev pub sent :
      DaemonId
      → Signal
      → ℕ
      → List (DaemonId × ℕ)
      → Option ℕ × k.State
      → PlatformResult (Unit {0}) × NativeAdapter
  unfolding remove
  sent id sig child ps (some code, s) =
      (err (signal_failed (with_code "kill failed: " code)), record { processes = ps; system = s })
  sent id sig child ps (none, s) =
      if is_kill sig
      then (ok tt, record { processes = remove id ps; system = k.start_kill child s })
      else (ok tt, record { processes = ps; system = s })

  -- The signal goes to the handle's process.
  unfoldable pub send_signal :
      DaemonHandle → Signal → NativeAdapter → PlatformResult (Unit {0}) × NativeAdapter
  unfolding sent lookup
  send_signal h sig a = elim (lookup h.id a.processes) [
    | none ↦ (err (not_found (of_id h.id)), a)
    | some child ↦ elim (pid h) [
      | none ↦ (err (signal_failed (text "no PID in handle")), a)
      | some p ↦ sent h.id sig child a.processes (k.send p sig a.system)
    ]
  ]

  abbrev pub polled :
      DaemonId → List (DaemonId × ℕ) → Poll × k.State → PlatformResult DaemonStatus × NativeAdapter
  unfolding remove
  polled id ps (ended e, s) = (ok (status_of e), record { processes = remove id ps; system = s })
  polled id ps (alive, s) = (ok running, record { processes = ps; system = s })
  polled id ps (unknown code, s) = (
    err (status_failed (with_code "failed to get status: " code)),
    record { processes = ps; system = s },
  )

  unfoldable pub status : DaemonHandle → NativeAdapter → PlatformResult DaemonStatus × NativeAdapter
  unfolding polled lookup
  status h a = elim (lookup h.id a.processes) [
    | none ↦ (ok stopped, a)
    | some child ↦ polled h.id a.processes (k.try_wait child a.system)
  ]

  unfoldable pub attach_tracer : DaemonHandle → NativeAdapter → PlatformResult TracerHandle
  unfolding lookup
  attach_tracer h a = elim (lookup h.id a.processes) [
    | none ↦ err (not_found (of_id h.id))
    | some child ↦ ok record { daemon_id = h.id; tracer_type = ptrace }
  ]

  abbrev pub slept : NativeAdapter → NativeAdapter
  slept a = record a { system = k.sleep stop_wait a.system }

  -- What a round of the loop makes of a status: an answer, or the rest of the loop.
  abbrev pub judged :
      PlatformResult DaemonStatus × NativeAdapter
      → Option (PlatformResult (Unit {0}) × NativeAdapter)
      → Option (PlatformResult (Unit {0}) × NativeAdapter)
  judged (err e, a) rest = some (err e, a)
  judged (ok stopped, a) rest = some (ok tt, a)
  judged (ok (failed r), a) rest = some (ok tt, a)
  judged (ok other, a) rest = rest

  -- `none` while the daemon runs and the loop has run `fuel` times.
  unfoldable pub wait :
      ℕ → ℕ → ℕ → DaemonHandle → NativeAdapter → Option (PlatformResult (Unit {0}) × NativeAdapter)
  unfolding status send_signal
  wait zero limit start h a = none
  wait (suc fuel) limit start h a =
      let answer = status h a in
      let later = wait fuel limit start h (slept answer.1) in
      if ltb (k.now a.system - start) limit
      then judged answer later
      else some (send_signal h kill a)

  abbrev pub terminated :
      DaemonHandle
      → ℕ
      → PlatformResult (Unit {0}) × NativeAdapter
      → Option (PlatformResult (Unit {0}) × NativeAdapter)
  unfolding wait
  terminated h limit (err e, a) = some (err e, a)
  terminated h limit (ok done, a) = wait (limit / stop_wait + 2) limit (k.now a.system) h a

  unfoldable pub stop :
      DaemonHandle → ℕ → NativeAdapter → Option (PlatformResult (Unit {0}) × NativeAdapter)
  unfolding terminated
  stop h limit a = terminated h limit (send_signal h term a)
