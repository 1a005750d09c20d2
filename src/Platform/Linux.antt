-- ===== src/Platform/Linux.antt =====
-- crates/duende-platform/src/linux.rs: systemd units in files, by the tool `systemctl`.
pub mod Unit
pub mod Lines
pub mod Reader
use duende.Prelude.{
  ℕ, ◌-◌, ◌/◌, Bool, true, false, ◌&&◌, Option, none, some, String, List, [], ◌∷◌, ◌++◌, ltb, ◌==◌,
  if◌then◌else◌, u32_mod,
}
use duende.Prelude.Float.{F64}
use duende.Prelude.Text.{chars, same_text, trim, strip_prefix, join, lines_from}
use duende.Prelude.Decimal.{to_string, parse}
use duende.Core.Types.{
  DaemonStatus, running, stopped, failed, starting, stopping, created, exit_code, Signal, pos,
}
use duende.Core.Config
use duende.Core.Config.{
  DaemonConfig, ResourceConfig, ConfigRestart, never, always, on_failure, unless_stopped,
}
use duende.Core.Adapter.{text, with_code, with_text}
use duende.Core.Adapters.Tool.{Call, Tool, replace, signal_name}
use duende.Platform.Error.{PlatformError, Result, ok, err, ◌>>=◌, ok_or}
use duende.Platform.Handle.{DaemonHandle, TracerHandle, linux, is_for, systemd_handle}
use duende.Platform.Commands.{Host, output, checked, checked_or}

pub record LinuxAdapter : Type 0 where
  pub unit_dir : List ℕ
  pub runtime_dir : List ℕ

abbrev pub with_unit_dir : List ℕ → LinuxAdapter
with_unit_dir unit_dir = record {
  unit_dir = unit_dir;
  runtime_dir = chars "/run/systemd/transient";
}

abbrev pub new : LinuxAdapter
new = with_unit_dir (chars "/etc/systemd/system")

-- A line and its line feed.
abbrev pub line : List ℕ → List ℕ
line body = body ++ (10 ∷ [])

abbrev pub if_some : (List ℕ → List ℕ) → Option String → List ℕ
if_some f none = []
if_some f (some s) = f (chars s)

abbrev pub arguments : List String → List ℕ
arguments [] = []
arguments (arg ∷ args) = 32 ∷ (chars arg ++ arguments args)

abbrev pub environment : List (String × String) → List ℕ
environment [] = []
environment ((key, value) ∷ rest) =
    line (chars "Environment=\"" ++ (chars key ++ (61 ∷ (chars value ++ chars "\""))))
    ++ environment rest

abbrev pub restart_directive : ConfigRestart → List ℕ
restart_directive never = chars "no"
restart_directive always = chars "always"
restart_directive on_failure = chars "on-failure"
restart_directive unless_stopped = chars "unless-stopped"

unfoldable pub unit_name : List ℕ → List ℕ
unfolding replace
unit_name daemon_name = chars "duende-" ++ (replace 32 45 daemon_name ++ chars ".service")

module _ (f : F64) (ten_thousandths : f.Carrier → ℕ) where
  -- `ten_thousandths` is the quota times 10000.0, as a u64.
  abbrev pub limits : ResourceConfig f.Carrier → List ℕ
  limits r =
      (if ltb 0 r.memory_bytes then line (chars "MemoryMax=" ++ to_string r.memory_bytes) else [])
      ++ ((if f.lt (f.of_nat 0) r.cpu_quota_percent && f.lt r.cpu_quota_percent (f.of_nat 100)
            then line (
                chars "CPUQuota="
                ++ (to_string (ten_thousandths r.cpu_quota_percent / 10000) ++ (37 ∷ [])))
            else [])
          ++ (if ltb 0 r.pids_max then line (chars "TasksMax=" ++ to_string r.pids_max) else []))

  unfoldable pub generate_unit_file : DaemonConfig f.Carrier → List ℕ
  generate_unit_file c =
      line (chars "[Unit]")
      ++ (line (chars "Description=" ++ chars c.description)
          ++ (line (chars "After=network.target")
              ++ (line []
                  ++ (line (chars "[Service]")
                      ++ (line (chars "Type=simple")
                          ++ (line (chars "ExecStart=" ++ (chars c.binary_path ++ arguments c.args))
                              ++ (if_some (λ dir. line (chars "WorkingDirectory=" ++ dir))
                                    c.working_dir
                                  ++ (if_some (λ name. line (chars "User=" ++ name)) c.user
                                      ++ (if_some (λ name. line (chars "Group=" ++ name)) c.group
                                          ++ (environment c.env
                                              ++ (limits c.resources
                                                  ++ (line (
                                                        chars "Restart="
                                                        ++ restart_directive c.restart)
                                                      ++ (line (
                                                            chars "TimeoutStopSec="
                                                            ++ to_string
                                                            (c.shutdown_timeout / 1000000000))
                                                          ++ (line []
                                                            ++ (line (chars "[Install]")
                                                            ++ line (
                                                            chars
                                                            "WantedBy=multi-user.target"))))))))))))))))

-- What a state of systemd is called here.
unfoldable pub state_named : List ℕ → DaemonStatus
state_named state =
    if same_text state (chars "active")
    then running
    else if same_text state (chars "running")
    then running
    else if same_text state (chars "inactive")
    then stopped
    else if same_text state (chars "dead")
    then stopped
    else if same_text state (chars "failed")
    then failed (exit_code (pos 1))
    else if same_text state (chars "activating")
    then starting
    else if same_text state (chars "reloading")
    then starting
    else if same_text state (chars "deactivating")
    then stopping
    else created

-- `find_map` on a prefix of a line.
abbrev pub value_of : List ℕ → List (List ℕ) → Option (List ℕ)
value_of key [] = none
value_of key (l ∷ ls) = elim (strip_prefix key l) [
  | some value ↦ some value
  | none ↦ value_of key ls
]

unfoldable pub parse_status : List ℕ → DaemonStatus
unfolding state_named
parse_status out = elim (value_of (chars "ActiveState=") (lines_from [] out)) [
  | none ↦ created
  | some state ↦ state_named (trim state)
]

abbrev pub parse_word : List ℕ → Option ℕ
parse_word word = parse u32_mod (trim word)

unfoldable pub parse_main_pid : List ℕ → Result ℕ
unfolding lines_from strip_prefix
parse_main_pid out = elim (value_of (chars "MainPID=") (lines_from [] out)) [
  | none ↦ err (PlatformError.tracer (text "failed to parse MainPID"))
  | some word ↦ ok_or (PlatformError.tracer (text "failed to parse MainPID")) (parse_word word)
]

abbrev pub traced : ℕ → Result TracerHandle
traced pid =
    if pid == 0
    then err (PlatformError.tracer (text "service not running"))
    else ok record { platform = linux; id = chars "ptrace:" ++ to_string pid }

abbrev systemctl : List (List ℕ) → List (List ℕ)
systemctl args = chars "systemctl" ∷ args

abbrev pub reload_args : List (List ℕ)
reload_args = chars "systemctl" ∷ chars "daemon-reload" ∷ []

abbrev pub start_args : List ℕ → List (List ℕ)
start_args unit = chars "systemctl" ∷ chars "start" ∷ unit ∷ []

abbrev pub kill_args : Signal → List ℕ → List (List ℕ)
kill_args sig unit =
    chars "systemctl" ∷ chars "kill" ∷ chars "--signal" ∷ signal_name sig ∷ unit ∷ []

abbrev pub show_args : List ℕ → List ℕ → List (List ℕ)
show_args property unit = chars "systemctl" ∷ chars "show" ∷ property ∷ unit ∷ []

module _ (w : Host) where
  abbrev pub start : List ℕ → Result (List ℕ) → w.tool.State → Result DaemonHandle × w.tool.State
  start unit (err e) s = (err e, s)
  start unit (ok out) s = (
    checked PlatformError.spawn "systemctl start failed: " (w.tool.run (start_args unit) s).0
        >>= λ said. ok (systemd_handle unit),
    (w.tool.run (start_args unit) s).1,
  )

  abbrev pub reload : List ℕ → Option ℕ × w.tool.State → Result DaemonHandle × w.tool.State
  reload unit (some code, s) =
      (err (PlatformError.spawn (with_code "failed to write unit file: " code)), s)
  reload unit (none, s) =
      start unit
        (checked_or PlatformError.spawn "daemon-reload failed: " "daemon-reload failed"
          (w.tool.run reload_args s).0)
        (w.tool.run reload_args s).1

  -- The configuration is the default one of the daemon's name and `/bin/false`.
  unfoldable pub spawn :
      (f : F64)
      → (f.Carrier → ℕ)
      → LinuxAdapter
      → String
      → w.tool.State
      → Result DaemonHandle × w.tool.State
  unfolding generate_unit_file unit_name Config.new
  spawn f ten_thousandths a name s =
      let unit = unit_name (chars name) in
      reload unit (
        w.write (join a.unit_dir unit)
          (generate_unit_file f ten_thousandths (Config.new f name "/bin/false")) s)

  unfoldable pub send_signal :
      DaemonHandle → Signal → w.tool.State → Result (Unit {0}) × w.tool.State
  unfolding signal_name
  send_signal h sig s =
      if is_for linux h
      then (
        checked PlatformError.signal "systemctl kill failed: " (w.tool.run (kill_args sig h.id) s).0
            >>= λ said. ok tt,
        (w.tool.run (kill_args sig h.id) s).1,
      )
      else (err (PlatformError.signal (text "not a systemd handle")), s)

  unfoldable pub status : DaemonHandle → w.tool.State → Result DaemonStatus × w.tool.State
  unfolding parse_status
  status h s =
      let args = show_args (chars "--property=ActiveState") h.id in
      if is_for linux h
      then (
        output PlatformError.status "systemctl show failed: " (w.tool.run args s).0 >>= λ out.
            ok (parse_status out),
        (w.tool.run args s).1,
      )
      else (err (PlatformError.status (text "not a systemd handle")), s)

  unfoldable pub attach_tracer : DaemonHandle → w.tool.State → Result TracerHandle × w.tool.State
  unfolding parse_main_pid
  attach_tracer h s =
      let args = show_args (chars "--property=MainPID") h.id in
      if is_for linux h
      then (
        output PlatformError.tracer "failed to get MainPID: " (w.tool.run args s).0 >>= λ out.
            parse_main_pid out >>= traced,
        (w.tool.run args s).1,
      )
      else (err (PlatformError.tracer (text "not a systemd handle")), s)
