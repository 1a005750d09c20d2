-- ===== src/Core/Adapters/Container/Operations.antt =====
-- The adapter's operations (core's adapters/container.rs).
use duende.Prelude.{ℕ, Bool, Option, none, some, List, [], ◌∷◌}
use duende.Prelude.Text.{chars, trim}
use duende.Core.Types.{DaemonId, DaemonStatus, Signal}
use duende.Core.Adapter.{
  PlatformResult, err, ok, spawn_failed, signal_failed, tracer_failed, text, with_code, with_text,
  DaemonHandle, container_handle, TracerHandle, ptrace,
}
use duende.Core.Adapters.Tool.{Call, Tool, succeeded, checked, and_then, done_with}
use duende.Core.Adapters.Container.{
  docker, podman, containerd, command, runtime_name, ContainerAdapter, container_name,
  execute_title, run_title, kill_title, spawn_args, ps_args, signal_args, status_args, pid_args,
  remove_args, no_handle, nonempty, listed_id, status_answer, read_pid, handle_id,
}

module _ (t : Tool) where
  abbrev pub get_container_id : ContainerAdapter → List ℕ → t.State → Option (List ℕ) × t.State
  get_container_id a name s = (listed_id (t.run (ps_args a name) s).0, (t.run (ps_args a name) s).1)

  abbrev pub id_or : List ℕ → Option (List ℕ) → List ℕ
  id_or name none = name
  id_or name (some id) = id

  abbrev pub spawned : ContainerAdapter → DaemonId → List ℕ → DaemonHandle
  spawned a id container_id = container_handle id (runtime_name a.runtime) container_id

  -- After the runtime's answer; a container whose identifier it did not write is asked for.
  abbrev pub found :
      ContainerAdapter
      → DaemonId
      → List ℕ
      → PlatformResult (List ℕ)
      → t.State
      → PlatformResult DaemonHandle × t.State
  found a id name (err e) s = (err e, s)
  found a id name (ok out) s = elim (nonempty (trim out)) [
    | some container_id ↦ (ok (spawned a id container_id), s)
    | none ↦ (
      ok (spawned a id (id_or name (get_container_id a name s).0)),
      (get_container_id a name s).1,
    )
  ]

  unfoldable pub spawn :
      ContainerAdapter → DaemonId → List ℕ → t.State → PlatformResult DaemonHandle × t.State
  unfolding container_name
  spawn a id daemon_name s =
      let name = container_name daemon_name in
      found a id name
        (checked (λ code. spawn_failed (with_code (execute_title a.runtime) code))
          (λ error. spawn_failed (with_text (run_title a.runtime) error))
          (t.run (spawn_args a name) s).0)
        (t.run (spawn_args a name) s).1

  unfoldable pub send_signal :
      ContainerAdapter → DaemonHandle → Signal → t.State → PlatformResult (Unit {0}) × t.State
  send_signal a h sig s = elim (handle_id h) [
    | none ↦ (err no_handle, s)
    | some id ↦ (
      done_with tt (
          checked (λ code. signal_failed (with_code (execute_title a.runtime) code))
            (λ error. signal_failed (with_text (kill_title a.runtime) error))
            (t.run (signal_args a sig id) s).0),
      (t.run (signal_args a sig id) s).1,
    )
  ]

  unfoldable pub status :
      ContainerAdapter → DaemonHandle → t.State → PlatformResult DaemonStatus × t.State
  status a h s = elim (handle_id h) [
    | none ↦ (err no_handle, s)
    | some id ↦
        (status_answer a.runtime (t.run (status_args a id) s).0, (t.run (status_args a id) s).1)
  ]

  abbrev pub traced : DaemonHandle → Call → PlatformResult TracerHandle
  traced h call =
      done_with (record { daemon_id = h.id; tracer_type = ptrace })
        (and_then
          (checked (λ code. tracer_failed (with_code "Failed to get container PID: " code))
            (λ error. tracer_failed (text "Container not found")) call)
          read_pid)

  abbrev pub trace_by_inspect :
      ContainerAdapter → DaemonHandle → List ℕ → t.State → PlatformResult TracerHandle × t.State
  trace_by_inspect a h id s = (traced h (t.run (pid_args a id) s).0, (t.run (pid_args a id) s).1)

  unfoldable pub attach_tracer :
      ContainerAdapter → DaemonHandle → t.State → PlatformResult TracerHandle × t.State
  attach_tracer a h s = elim (handle_id h) [
    | none ↦ (err no_handle, s)
    | some id ↦ elim a.runtime [
      | docker ↦ trace_by_inspect a h id s
      | podman ↦ trace_by_inspect a h id s
      | containerd ↦ (err (tracer_failed (text "containerd tracer attachment not supported")), s)
    ]
  ]

  unfoldable pub remove :
      ContainerAdapter → List ℕ → Bool → t.State → PlatformResult (Unit {0}) × t.State
  remove a id force s = (
    done_with tt (
        checked (λ code. spawn_failed (with_code "Failed to remove container: " code))
          (λ error. spawn_failed (with_text "Failed to remove container: " error))
          (t.run (remove_args a id force) s).0),
    (t.run (remove_args a id force) s).1,
  )

  abbrev pub is_available : ContainerAdapter → t.State → Bool × t.State
  is_available a s =
      let args = command a.runtime ∷ chars "--version" ∷ [] in
      (succeeded (t.run args s).0, (t.run args s).1)
