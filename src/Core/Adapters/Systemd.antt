-- ===== src/Core/Adapters/Systemd.antt =====
-- crates/duende-core/src/adapters/systemd.rs: transient units of systemd, by the tools `systemd-run`
-- and `systemctl`.
pub mod Status
use duende.Prelude.{
  ℕ, Bool, true, false, Option, none, some, List, [], ◌∷◌, ◌++◌, ◌==◌, if◌then◌else◌, u64_mod,
}
use duende.Prelude.Text.{chars, contains, trim, join}
use duende.Prelude.Decimal.{parse}
use duende.Core.Types.{
  DaemonId, DaemonStatus, running, starting, stopping, stopped, failed, exit_code, Signal, pos,
}
use duende.Core.Adapter.{
  PlatformError, PlatformResult, err, ok, spawn_failed, text, with_code, with_text, DaemonHandle,
  systemd_handle, systemd_unit, TracerHandle, ptrace,
}
use duende.Core.Adapters.Tool.{
  Call, not_run, finished, Tool, success, code_or, checked, done_with, replace, signal_name,
}

pub record SystemdAdapter : Type 0 where
  pub unit_dir : List ℕ
  pub user_mode : Bool

abbrev pub system : SystemdAdapter
system = record { unit_dir = chars "/etc/systemd/system"; user_mode = false }

-- `config_dir` is the user's directory of configurations, if there is one.
abbrev pub user_dir : Option (List ℕ) → List ℕ
user_dir none = chars "~/.config/systemd/user"
user_dir (some dir) = join dir (chars "systemd/user")

abbrev pub user : Option (List ℕ) → SystemdAdapter
user config_dir = record { unit_dir = user_dir config_dir; user_mode = true }

abbrev pub with_unit_dir : List ℕ → Bool → SystemdAdapter
with_unit_dir unit_dir user_mode = record { unit_dir = unit_dir; user_mode = user_mode }

unfoldable pub unit_name : List ℕ → List ℕ
unfolding replace
unit_name daemon_name = chars "duende-" ++ (replace 32 45 daemon_name ++ chars ".service")

-- The program and its first argument.
abbrev pub systemctl_cmd : SystemdAdapter → List (List ℕ) → List (List ℕ)
systemctl_cmd a rest =
    if a.user_mode then chars "systemctl" ∷ chars "--user" ∷ rest else chars "systemctl" ∷ rest

abbrev pub systemd_run_cmd : SystemdAdapter → List (List ℕ) → List (List ℕ)
systemd_run_cmd a rest =
    if a.user_mode then chars "systemd-run" ∷ chars "--user" ∷ rest else chars "systemd-run" ∷ rest

unfoldable pub of_words : List ℕ → DaemonStatus
of_words output =
    if contains (chars "Active: deactivating") output
    then stopping
    else if contains (chars "Active: inactive") output
    then stopped
    else if contains (chars "Active: failed") output
    then failed (exit_code (pos 1))
    else stopped

unfoldable pub parse_status : List ℕ → ℕ → DaemonStatus
parse_status output code =
    if code == 0
    then (if contains (chars "Active: active (running)") output
        then running
        else if contains (chars "Active: activating") output
        then starting
        else of_words output)
    else of_words output

abbrev pub spawn_args : SystemdAdapter → List ℕ → List (List ℕ)
spawn_args a daemon_name = systemd_run_cmd a (
    chars "--unit"
    ∷ unit_name daemon_name
    ∷ chars "--description"
    ∷ (chars "Duende daemon: " ++ daemon_name)
    ∷ chars "--remain-after-exit"
    ∷ chars "--collect"
    ∷ chars "--property=Restart=on-failure"
    ∷ chars "--property=RestartSec=5"
    ∷ chars "--"
    ∷ chars "/bin/true"
    ∷ [])

abbrev pub kill_args : SystemdAdapter → Signal → List ℕ → List (List ℕ)
kill_args a sig unit =
    systemctl_cmd a (chars "kill" ∷ chars "--signal" ∷ signal_name sig ∷ unit ∷ [])

abbrev pub status_args : SystemdAdapter → List ℕ → List (List ℕ)
status_args a unit = systemctl_cmd a (chars "status" ∷ unit ∷ [])

abbrev pub show_args : SystemdAdapter → List ℕ → List (List ℕ)
show_args a unit =
    systemctl_cmd a (chars "show" ∷ chars "--property=MainPID" ∷ chars "--value" ∷ unit ∷ [])

abbrev pub stop_args : SystemdAdapter → List ℕ → List (List ℕ)
stop_args a unit = systemctl_cmd a (chars "stop" ∷ unit ∷ [])

abbrev pub reset_args : SystemdAdapter → List ℕ → List (List ℕ)
reset_args a unit = systemctl_cmd a (chars "reset-failed" ∷ unit ∷ [])

abbrev pub no_handle : PlatformError
no_handle = spawn_failed (text "Invalid handle type for systemd adapter")

abbrev pub status_answer : Call → PlatformResult DaemonStatus
status_answer (not_run code) =
    err (spawn_failed (with_code "Failed to execute systemctl status: " code))
status_answer (finished code out error) = ok (parse_status out (code_or 1 code))

abbrev pub main_pid : Call → Option ℕ
main_pid (not_run code) = none
main_pid (finished code out error) = if success code then parse u64_mod (trim out) else none

abbrev pub traced : DaemonId → Option ℕ → PlatformResult TracerHandle
traced id none = err (spawn_failed (text "Cannot attach tracer: failed to get PID"))
traced id (some pid) =
    if pid == 0
    then err (spawn_failed (text "Cannot attach tracer: PID unknown"))
    else ok record { daemon_id = id; tracer_type = ptrace }

module _ (t : Tool) where
  unfoldable pub spawn :
      SystemdAdapter → DaemonId → List ℕ → t.State → PlatformResult DaemonHandle × t.State
  spawn a id name s = (
    done_with (systemd_handle id (unit_name name)) (
        checked (λ code. spawn_failed (with_code "Failed to execute systemd-run: " code))
          (λ error. spawn_failed (with_text "systemd-run failed: " error))
          (t.run (spawn_args a name) s).0),
    (t.run (spawn_args a name) s).1,
  )

  unfoldable pub send_signal :
      SystemdAdapter → DaemonHandle → Signal → t.State → PlatformResult (Unit {0}) × t.State
  send_signal a h sig s = elim (systemd_unit h) [
    | none ↦ (err no_handle, s)
    | some unit ↦ (
      done_with tt (
          checked (λ code. spawn_failed (with_code "Failed to execute systemctl kill: " code))
            (λ error. spawn_failed (with_text "systemctl kill failed: " error))
            (t.run (kill_args a sig unit) s).0),
      (t.run (kill_args a sig unit) s).1,
    )
  ]

  unfoldable pub status :
      SystemdAdapter → DaemonHandle → t.State → PlatformResult DaemonStatus × t.State
  status a h s = elim (systemd_unit h) [
    | none ↦ (err no_handle, s)
    | some unit ↦ (status_answer (t.run (status_args a unit) s).0, (t.run (status_args a unit) s).1)
  ]

  abbrev pub get_main_pid : SystemdAdapter → List ℕ → t.State → Option ℕ × t.State
  get_main_pid a unit s = (main_pid (t.run (show_args a unit) s).0, (t.run (show_args a unit) s).1)

  unfoldable pub attach_tracer :
      SystemdAdapter → DaemonHandle → t.State → PlatformResult TracerHandle × t.State
  attach_tracer a h s = elim (systemd_unit h) [
    | none ↦ (err no_handle, s)
    | some unit ↦ (traced h.id (get_main_pid a unit s).0, (get_main_pid a unit s).1)
  ]

  unfoldable pub stop : SystemdAdapter → List ℕ → t.State → PlatformResult (Unit {0}) × t.State
  stop a unit s = (
    done_with tt (
        checked (λ code. spawn_failed (with_code "Failed to execute systemctl stop: " code))
          (λ error. spawn_failed (with_text "systemctl stop failed: " error))
          (t.run (stop_args a unit) s).0),
    (t.run (stop_args a unit) s).1,
  )

  unfoldable pub reset_failed :
      SystemdAdapter → List ℕ → t.State → PlatformResult (Unit {0}) × t.State
  reset_failed a unit s = (ok tt, (t.run (reset_args a unit) s).1)
