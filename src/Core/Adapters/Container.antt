-- ===== src/Core/Adapters/Container.antt =====
-- crates/duende-core/src/adapters/container.rs: containers of Docker, Podman or containerd, by the
-- runtime's command.
pub mod Operations
pub mod Status
use duende.Prelude.{
  ℕ, zero, ◌||◌, Bool, true, false, not, Option, none, some, String, List, [], ◌∷◌, ◌++◌, ◌==◌,
  if◌then◌else◌, u32_mod,
}
use duende.Prelude.Text.{chars, contains, trim}
use duende.Prelude.Decimal.{parse}
use duende.Core.Types.{
  ℤ, pos, DaemonId, DaemonStatus, running, starting, paused, stopped, failed, exit_code, Signal,
}
use duende.Core.Adapter.{
  PlatformError, PlatformResult, err, ok, spawn_failed, signal_failed, status_failed, tracer_failed,
  text, with_code, with_text, DaemonHandle, container_handle, container_id_of, TracerHandle, ptrace,
}
use duende.Core.Adapters.Tool.{
  Call, not_run, finished, Tool, success, succeeded, checked, and_then, done_with, replace,
  signal_name, exit_code_from,
}

pub data ContainerRuntime : Type 0 where
  docker podman containerd : ContainerRuntime

abbrev pub command : ContainerRuntime → List ℕ
command docker = chars "docker"
command podman = chars "podman"
command containerd = chars "ctr"

abbrev pub runtime_name : ContainerRuntime → List ℕ
runtime_name docker = chars "docker"
runtime_name podman = chars "podman"
runtime_name containerd = chars "containerd"

pub record ContainerAdapter : Type 0 where
  pub runtime : ContainerRuntime
  pub default_image : List ℕ

abbrev pub with_config : ContainerRuntime → List ℕ → ContainerAdapter
with_config runtime image = record { runtime = runtime; default_image = image }

-- The adapters that `docker`, `podman` and `containerd` make.
abbrev pub of_runtime : ContainerRuntime → ContainerAdapter
of_runtime docker = with_config docker (chars "alpine:latest")
of_runtime podman = with_config podman (chars "alpine:latest")
of_runtime containerd = with_config containerd (chars "docker.io/library/alpine:latest")

unfoldable pub container_name : List ℕ → List ℕ
unfolding replace
container_name daemon_name = chars "duende-" ++ replace 95 45 (replace 32 45 daemon_name)

unfoldable pub extract_exit_code : List ℕ → Option ℤ
unfolding exit_code_from
extract_exit_code output =
    exit_code_from (chars "\"ExitCode\": " ∷ chars "\"ExitCode\":" ∷ []) output

abbrev pub exit_status : Option ℤ → DaemonStatus
exit_status none = stopped
exit_status (some (pos zero)) = stopped
exit_status (some code) = failed (exit_code code)

-- One of the two spellings occurs.
abbrev pub says : String → String → List ℕ → Bool
says upper lower output = contains (chars upper) output || contains (chars lower) output

-- Of a container that does not run.
unfoldable pub other_status : List ℕ → DaemonStatus
unfolding extract_exit_code
other_status output =
    if says "\"Restarting\": true" "\"restarting\": true" output
    then starting
    else if says "\"Paused\": true" "\"paused\": true" output
    then paused
    else exit_status (extract_exit_code output)

unfoldable pub parse_status : List ℕ → DaemonStatus
unfolding other_status
parse_status output =
    if says "\"Running\": true" "\"running\": true" output then running else other_status output

abbrev pub execute_title : ContainerRuntime → String
execute_title docker = "Failed to execute docker: "
execute_title podman = "Failed to execute podman: "
execute_title containerd = "Failed to execute ctr: "

abbrev pub run_title : ContainerRuntime → String
run_title docker = "docker run failed: "
run_title podman = "podman run failed: "
run_title containerd = "ctr run failed: "

abbrev pub kill_title : ContainerRuntime → String
kill_title docker = "docker kill failed: "
kill_title podman = "podman kill failed: "
kill_title containerd = "ctr kill failed: "

abbrev loop_command : List (List ℕ)
loop_command = chars "/bin/sh" ∷ chars "-c" ∷ chars "while true; do sleep 1; done" ∷ []

-- The arguments of a runtime: those of Docker and Podman, or those of containerd.
abbrev pub args_of : ContainerRuntime → List (List ℕ) → List (List ℕ) → List (List ℕ)
args_of docker oci ctr = chars "docker" ∷ oci
args_of podman oci ctr = chars "podman" ∷ oci
args_of containerd oci ctr = chars "ctr" ∷ ctr

abbrev pub spawn_args : ContainerAdapter → List ℕ → List (List ℕ)
spawn_args a name =
    args_of a.runtime
      (chars "run"
        ∷ chars "-d"
        ∷ chars "--name"
        ∷ name
        ∷ chars "--restart"
        ∷ chars "on-failure:5"
        ∷ a.default_image
        ∷ loop_command)
      (chars "run" ∷ chars "-d" ∷ a.default_image ∷ name ∷ loop_command)

abbrev pub ps_args : ContainerAdapter → List ℕ → List (List ℕ)
ps_args a name =
    command a.runtime
    ∷ chars "ps"
    ∷ chars "-aq"
    ∷ chars "--filter"
    ∷ (chars "name=^" ++ (name ++ chars "$"))
    ∷ []

abbrev pub signal_args : ContainerAdapter → Signal → List ℕ → List (List ℕ)
signal_args a sig id =
    args_of a.runtime (chars "kill" ∷ chars "--signal" ∷ signal_name sig ∷ id ∷ [])
      (chars "task" ∷ chars "kill" ∷ chars "--signal" ∷ signal_name sig ∷ id ∷ [])

abbrev pub status_args : ContainerAdapter → List ℕ → List (List ℕ)
status_args a id =
    args_of a.runtime (chars "inspect" ∷ chars "--format" ∷ chars "{{json .State}}" ∷ id ∷ [])
      (chars "task" ∷ chars "list" ∷ id ∷ [])

abbrev pub pid_args : ContainerAdapter → List ℕ → List (List ℕ)
pid_args a id =
    command a.runtime ∷ chars "inspect" ∷ chars "--format" ∷ chars "{{.State.Pid}}" ∷ id ∷ []

abbrev pub forced : Bool → List (List ℕ) → List (List ℕ)
forced force rest = if force then chars "-f" ∷ rest else rest

abbrev pub remove_args : ContainerAdapter → List ℕ → Bool → List (List ℕ)
remove_args a id force =
    args_of a.runtime (chars "rm" ∷ forced force (id ∷ []))
      (chars "container" ∷ chars "rm" ∷ forced force (id ∷ []))

abbrev pub no_handle : PlatformError
no_handle = spawn_failed (text "Invalid handle type for container adapter")

abbrev pub nonempty : List ℕ → Option (List ℕ)
nonempty [] = none
nonempty (c ∷ cs) = some (c ∷ cs)

abbrev pub listed_id : Call → Option (List ℕ)
listed_id (not_run code) = none
listed_id (finished code out error) = if success code then nonempty (trim out) else none

abbrev pub status_answer : ContainerRuntime → Call → PlatformResult DaemonStatus
status_answer runtime (not_run code) = err (status_failed (with_code (execute_title runtime) code))
status_answer runtime (finished code out error) =
    ok (if success code then parse_status out else stopped)

abbrev pub read_pid : List ℕ → PlatformResult ℕ
read_pid out = elim (parse u32_mod (trim out)) [
  | none ↦ err (tracer_failed (text "Invalid PID"))
  | some pid ↦ if pid == 0 then err (tracer_failed (text "Container not running")) else ok pid
]

abbrev pub handle_id : DaemonHandle → Option (List ℕ)
handle_id h = container_id_of h.handle_data
