-- ===== src/Platform/Container.antt =====
-- crates/duende-platform/src/container.rs: containers of Docker, Podman or containerd, by the
-- runtime's command line.
pub mod Arguments
use duende.Prelude.{
  ℕ, zero, ◌/◌, Bool, true, false, not, ◌&&◌, ◌||◌, Option, none, some, String, List, [], ◌∷◌, ◌++◌,
  map, ltb, ◌==◌, if◌then◌else◌, u32_mod,
}
use duende.Prelude.Float.{F64}
use duende.Prelude.Text.{chars, contains, find_after, take_while, trim, trim_start}
use duende.Prelude.Decimal.{to_string, parse, is_digit}
use duende.Core.Types.{
  ℤ, pos, DaemonStatus, running, stopped, failed, starting, stopping, created, exit_code, Signal,
}
use duende.Core.Config
use duende.Core.Config.{
  DaemonConfig, ResourceConfig, ConfigRestart, never, always, on_failure, unless_stopped,
}
use duende.Core.Adapter.{text, with_code, with_text}
use duende.Core.Adapters.Tool.{
  Call, not_run, finished, Tool, success, replace, signal_name, parse_i32, number_text,
}
use duende.Platform.Error.{PlatformError, Result, ok, err, ◌>>=◌, ok_or}
use duende.Platform.Handle.{DaemonHandle, TracerHandle, container, is_for, container_handle}
use duende.Platform.Commands.{output, checked}

pub data ContainerRuntime : Type 0 where
  docker podman containerd : ContainerRuntime

abbrev pub cli_command : ContainerRuntime → List ℕ
cli_command docker = chars "docker"
cli_command podman = chars "podman"
cli_command containerd = chars "nerdctl"

pub record ContainerAdapter : Type 0 where
  pub socket_path : List ℕ
  pub runtime : ContainerRuntime
  pub image_prefix : List ℕ

abbrev pub with_socket : List ℕ → ContainerAdapter
with_socket socket_path = record {
  socket_path = socket_path;
  runtime = docker;
  image_prefix = chars "duende";
}

abbrev pub new : ContainerAdapter
new = with_socket (chars "/var/run/docker.sock")

abbrev pub socket_of : ContainerRuntime → List ℕ
socket_of docker = chars "/var/run/docker.sock"
socket_of podman = chars "/var/run/podman/podman.sock"
socket_of containerd = chars "/run/containerd/containerd.sock"

abbrev pub with_runtime : ContainerRuntime → ContainerAdapter
with_runtime runtime = record {
  socket_path = socket_of runtime;
  runtime = runtime;
  image_prefix = chars "duende";
}

abbrev pub with_image_prefix : ContainerAdapter → List ℕ → ContainerAdapter
with_image_prefix a prefix = record a { image_prefix = prefix }

unfoldable pub container_name : List ℕ → List ℕ
unfolding replace
container_name daemon_name = chars "duende-" ++ replace 32 45 daemon_name

abbrev pub restart_policy : ConfigRestart → List ℕ
restart_policy never = chars "no"
restart_policy always = chars "always"
restart_policy on_failure = chars "on-failure"
restart_policy unless_stopped = chars "unless-stopped"

-- An option and its value.
abbrev pub option : String → List ℕ → List (List ℕ)
option name value = chars name ∷ value ∷ []

abbrev pub environment : List (String × String) → List (List ℕ)
environment [] = []
environment ((key, value) ∷ rest) =
    chars "-e" ∷ (chars key ++ (61 ∷ chars value)) ∷ environment rest

abbrev pub working_dir : Option String → List (List ℕ)
working_dir none = []
working_dir (some dir) = option "-w" (chars dir)

abbrev pub user_text : String → Option String → List ℕ
user_text user none = chars user
user_text user (some group) = chars user ++ (58 ∷ chars group)

abbrev pub user : Option String → Option String → List (List ℕ)
user none group = []
user (some name) group = option "--user" (user_text name group)

abbrev pub texts : List String → List (List ℕ)
texts [] = []
texts (s ∷ ss) = chars s ∷ texts ss

abbrev pub name_or : List ℕ → Option (List ℕ) → List ℕ
name_or name none = name
name_or name (some file) = file

-- `cpus` is a hundredth of the quota with two digits; `file_name` is that of `Path`.
module _ (f : F64) (cpus : f.Carrier → List ℕ) (file_name : List ℕ → Option (List ℕ)) where
  abbrev pub limits : ResourceConfig f.Carrier → List (List ℕ)
  limits r =
      (if ltb 0 r.memory_bytes
        then option "--memory" (to_string r.memory_bytes ++ chars "b")
        else [])
      ++ ((if f.lt (f.of_nat 0) r.cpu_quota_percent && f.lt r.cpu_quota_percent (f.of_nat 100)
            then option "--cpus" (cpus r.cpu_quota_percent)
            else [])
          ++ (if ltb 0 r.pids_max then option "--pids-limit" (to_string r.pids_max) else []))

  abbrev pub image : ContainerAdapter → DaemonConfig f.Carrier → List ℕ
  image a c =
      a.image_prefix
      ++ (47 ∷ (name_or (chars c.name) (file_name (chars c.binary_path)) ++ chars ":latest"))

  unfoldable pub build_run_args : ContainerAdapter → DaemonConfig f.Carrier → List (List ℕ)
  unfolding container_name
  build_run_args a c =
      chars "run"
      ∷ chars "-d"
      ∷ chars "--name"
      ∷ container_name (chars c.name)
      ∷ (limits c.resources
          ++ (environment c.env
              ++ (working_dir c.working_dir
                  ++ (user c.user c.group
                      ++ (option "--restart" (restart_policy c.restart)
                          ++ (option "--stop-timeout" (to_string (c.shutdown_timeout / 1000000000))
                              ++ (image a c ∷ texts c.args)))))))

-- What stands behind "ExitCode": is the code, if it is a number.
abbrev pub exited_with : Option ℤ → DaemonStatus
exited_with none = stopped
exited_with (some (pos zero)) = stopped
exited_with (some code) = failed (exit_code code)

abbrev pub exited : Option (List ℕ) → DaemonStatus
exited none = stopped
exited (some rest) = exited_with (parse_i32 (number_text (trim_start rest)))

unfoldable pub parse_status : List ℕ → DaemonStatus
unfolding contains find_after parse_i32 trim_start
parse_status out =
    if contains (chars "\"running\"") out
    then running
    else if contains (chars "\"exited\"") out
    then exited (find_after (chars "\"ExitCode\":") out)
    else if contains (chars "\"created\"") out
    then created
    else if contains (chars "\"restarting\"") out || contains (chars "\"starting\"") out
    then starting
    else if contains (chars "\"paused\"") out || contains (chars "\"removing\"") out
    then stopping
    else if contains (chars "\"dead\"") out
    then failed (exit_code (pos 1))
    else created

abbrev pub run_title : ContainerRuntime → String
run_title docker = "docker run failed: "
run_title podman = "podman run failed: "
run_title containerd = "nerdctl run failed: "

abbrev pub kill_title : ContainerRuntime → String
kill_title docker = "docker kill failed: "
kill_title podman = "podman kill failed: "
kill_title containerd = "nerdctl kill failed: "

abbrev pub inspect_title : ContainerRuntime → String
inspect_title docker = "docker inspect failed: "
inspect_title podman = "podman inspect failed: "
inspect_title containerd = "nerdctl inspect failed: "

abbrev pub status_answer : ContainerRuntime → Call → Result DaemonStatus
status_answer runtime (not_run code) =
    err (PlatformError.status (with_code (inspect_title runtime) code))
status_answer runtime (finished code out error) =
    ok (if success code then parse_status out else stopped)

abbrev pub traced : ℕ → Result TracerHandle
traced pid =
    if pid == 0
    then err (PlatformError.tracer (text "container not running"))
    else ok record { platform = container; id = chars "ptrace:" ++ to_string pid }

abbrev pub inspect_args : ContainerAdapter → String → List ℕ → List (List ℕ)
inspect_args a format id =
    cli_command a.runtime ∷ chars "inspect" ∷ chars "--format" ∷ chars format ∷ id ∷ []

abbrev pub kill_args : ContainerAdapter → Signal → List ℕ → List (List ℕ)
kill_args a sig id =
    cli_command a.runtime ∷ chars "kill" ∷ chars "--signal" ∷ signal_name sig ∷ id ∷ []

module _ (t : Tool) where
  -- A container of the name is removed first, whatever becomes of that; the configuration is the
  -- default one of the daemon's name and `/bin/daemon`.
  unfoldable pub spawn :
      (f : F64)
      → (f.Carrier → List ℕ)
      → (List ℕ → Option (List ℕ))
      → ContainerAdapter
      → String
      → t.State
      → Result DaemonHandle × t.State
  unfolding build_run_args container_name Config.new
  spawn f cpus file_name a name s =
      let cli = cli_command a.runtime in
      let removal = cli ∷ chars "rm" ∷ chars "-f" ∷ container_name (chars name) ∷ [] in
      let s' = (t.run removal s).1 in
      let args = cli ∷ build_run_args f cpus file_name a (Config.new f name "/bin/daemon") in
      (
        checked PlatformError.spawn (run_title a.runtime) (t.run args s').0 >>= λ out.
            ok (container_handle (trim out)),
        (t.run args s').1,
      )

  unfoldable pub send_signal :
      ContainerAdapter → DaemonHandle → Signal → t.State → Result (Unit {0}) × t.State
  unfolding signal_name
  send_signal a h sig s =
      if is_for container h
      then (
        checked PlatformError.signal (kill_title a.runtime) (t.run (kill_args a sig h.id) s).0
            >>= λ out. ok tt,
        (t.run (kill_args a sig h.id) s).1,
      )
      else (err (PlatformError.signal (text "not a container handle")), s)

  unfoldable pub status : ContainerAdapter → DaemonHandle → t.State → Result DaemonStatus × t.State
  unfolding parse_status
  status a h s =
      let args = inspect_args a "{{json .State}}" h.id in
      if is_for container h
      then (status_answer a.runtime (t.run args s).0, (t.run args s).1)
      else (err (PlatformError.status (text "not a container handle")), s)

  unfoldable pub attach_tracer :
      ContainerAdapter → DaemonHandle → t.State → Result TracerHandle × t.State
  unfolding parse
  attach_tracer a h s =
      let args = inspect_args a "{{.State.Pid}}" h.id in
      if is_for container h
      then (
        output PlatformError.tracer "failed to get container PID: " (t.run args s).0 >>= λ out.
            ok_or (PlatformError.tracer (text "failed to parse container PID"))
              (parse u32_mod (trim out))
            >>= traced,
        (t.run args s).1,
      )
      else (err (PlatformError.tracer (text "not a container handle")), s)
