-- ===== src/Core/Adapters/Launchd/Operations.antt =====
-- The adapter's operations (core's adapters/launchd.rs) on a host with files and commands.
use duende.Prelude.{ℕ, Option, none, some, List, [], ◌∷◌, ◌++◌, ◌==◌, if◌then◌else◌}
use duende.Prelude.Text.{chars}
use duende.Prelude.Decimal.{to_string}
use duende.Core.Types.{DaemonId, DaemonStatus, Signal}
use duende.Core.Adapter.{
  PlatformError, PlatformResult, err, ok, spawn_failed, signal_failed, status_failed, tracer_failed,
  Message, text, with_code, with_text, DaemonHandle, launchd_handle, launchd_label_of, TracerHandle,
  ptrace,
}
use duende.Core.Adapters.Tool.{Call, not_run, finished, Tool, success, checked, and_then, done_with}
use duende.Core.Adapters.Launchd.{
  LaunchdAdapter, target, service_label, plist_path, generate_plist, parse_status, signal_number,
  pid_of_listing,
}

-- The commands, and the files: a call gives its error code if it fails.
pub record Host : Type 1 where
  pub tool : Tool
  pub uid : ℕ
  pub create_dir_all : List ℕ → tool.State → Option ℕ × tool.State
  pub write : List ℕ → List ℕ → tool.State → Option ℕ × tool.State
  pub remove_file : List ℕ → tool.State → Option ℕ × tool.State

abbrev pub no_handle : PlatformError
no_handle = spawn_failed (text "Invalid handle type for launchd adapter")

abbrev pub handle_label : DaemonHandle → Option (List ℕ)
handle_label h = launchd_label_of h.handle_data

abbrev pub unable : (Message → PlatformError) → ℕ → PlatformError
unable failure code = failure (with_code "Failed to execute launchctl: " code)

abbrev pub status_answer : List ℕ → Call → PlatformResult DaemonStatus
status_answer label (not_run code) = err (unable status_failed code)
status_answer label (finished code out error) = ok (parse_status out label)

abbrev pub known_pid : Option ℕ → PlatformResult ℕ
known_pid none = err (tracer_failed (text "Could not determine PID"))
known_pid (some pid) = if pid == 0 then err (tracer_failed (text "Service not running")) else ok pid

abbrev pub traced : DaemonHandle → Call → PlatformResult TracerHandle
traced h call =
    done_with (record { daemon_id = h.id; tracer_type = ptrace })
      (and_then
        (checked (λ code. tracer_failed (with_code "Failed to get PID: " code))
          (λ error. tracer_failed (text "Service not found")) call)
        (λ out. known_pid (pid_of_listing out)))

module _ (w : Host) where
  abbrev pub bootstrap_args : LaunchdAdapter → List ℕ → List (List ℕ)
  bootstrap_args a path = chars "launchctl" ∷ chars "bootstrap" ∷ target w.uid a.domain ∷ path ∷ []

  -- The service's target.
  abbrev pub service : LaunchdAdapter → List ℕ → List ℕ
  service a label = target w.uid a.domain ++ (47 ∷ label)

  abbrev pub kill_args : LaunchdAdapter → Signal → List ℕ → List (List ℕ)
  kill_args a sig label =
      chars "launchctl" ∷ chars "kill" ∷ to_string (signal_number sig) ∷ service a label ∷ []

  abbrev pub list_args : List (List ℕ)
  list_args = chars "launchctl" ∷ chars "list" ∷ []

  -- After the answer to `bootstrap`; the property list of a refused service is removed.
  abbrev pub bootstrapped :
      DaemonId → List ℕ → List ℕ → Call → w.tool.State → PlatformResult DaemonHandle × w.tool.State
  bootstrapped id label path (not_run code) s = (err (unable spawn_failed code), s)
  bootstrapped id label path (finished code out error) s =
      if success code then (ok (launchd_handle id label), s) else (
        err (spawn_failed (with_text "launchctl bootstrap failed: " error)),
        (w.remove_file path s).1,
      )

  abbrev pub bootstrap :
      LaunchdAdapter
      → DaemonId
      → List ℕ
      → Option ℕ × w.tool.State
      → PlatformResult DaemonHandle × w.tool.State
  bootstrap a id label (some code, s) =
      (err (spawn_failed (with_code "Failed to write plist file: " code)), s)
  bootstrap a id label (none, s) =
      let path = plist_path a label in
      bootstrapped id label path (w.tool.run (bootstrap_args a path) s).0
        (w.tool.run (bootstrap_args a path) s).1

  abbrev pub write_plist :
      LaunchdAdapter
      → DaemonId
      → List ℕ
      → Option ℕ × w.tool.State
      → PlatformResult DaemonHandle × w.tool.State
  write_plist a id daemon_name (some code, s) =
      (err (spawn_failed (with_code "Failed to create plist directory: " code)), s)
  write_plist a id daemon_name (none, s) =
      let label = service_label daemon_name in
      bootstrap a id label
        (w.write (plist_path a label) (generate_plist label daemon_name (chars "/usr/bin/true")) s)

  unfoldable pub spawn :
      LaunchdAdapter → DaemonId → List ℕ → w.tool.State → PlatformResult DaemonHandle × w.tool.State
  spawn a id daemon_name s = write_plist a id daemon_name (w.create_dir_all a.plist_dir s)

  unfoldable pub send_signal :
      LaunchdAdapter
      → DaemonHandle
      → Signal
      → w.tool.State
      → PlatformResult (Unit {0}) × w.tool.State
  send_signal a h sig s = elim (handle_label h) [
    | none ↦ (err no_handle, s)
    | some label ↦ (
      done_with tt (
          checked (unable signal_failed)
            (λ error. signal_failed (with_text "launchctl kill failed: " error))
            (w.tool.run (kill_args a sig label) s).0),
      (w.tool.run (kill_args a sig label) s).1,
    )
  ]

  unfoldable pub status : DaemonHandle → w.tool.State → PlatformResult DaemonStatus × w.tool.State
  status h s = elim (handle_label h) [
    | none ↦ (err no_handle, s)
    | some label ↦ (status_answer label (w.tool.run list_args s).0, (w.tool.run list_args s).1)
  ]

  unfoldable pub attach_tracer :
      DaemonHandle → w.tool.State → PlatformResult TracerHandle × w.tool.State
  attach_tracer h s = elim (handle_label h) [
    | none ↦ (err no_handle, s)
    | some label ↦
        let args = chars "launchctl" ∷ chars "list" ∷ label ∷ [] in
        (traced h (w.tool.run args s).0, (w.tool.run args s).1)
  ]

  abbrev pub removed : List ℕ → Call → w.tool.State → PlatformResult (Unit {0}) × w.tool.State
  removed path (not_run code) s = (err (unable spawn_failed code), s)
  removed path (finished code out error) s = (ok tt, (w.remove_file path s).1)

  unfoldable pub stop_and_unload :
      LaunchdAdapter → List ℕ → w.tool.State → PlatformResult (Unit {0}) × w.tool.State
  stop_and_unload a label s =
      let args = chars "launchctl" ∷ chars "bootout" ∷ service a label ∷ [] in
      removed (plist_path a label) (w.tool.run args s).0 (w.tool.run args s).1
