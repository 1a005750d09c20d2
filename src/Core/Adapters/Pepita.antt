-- ===== src/Core/Adapters/Pepita.antt =====
-- crates/duende-core/src/adapters/pepita.rs: virtual machines, by the tool `pepita` and a table of
-- the machines the adapter started. The counter `NEXT_CID` stands in the adapter's state.
pub mod Machines
use duende.Prelude.{
  ℕ, ◌+◌, ◌||◌, Bool, true, false, Option, none, some, List, [], ◌∷◌, ◌++◌, ◌==◌, if◌then◌else◌,
  wrap32,
}
use duende.Prelude.Map.{lookup, insert}
use duende.Prelude.Text.{chars, contains, lines_from}
use duende.Prelude.Decimal.{to_string}
use duende.Core.Types.{
  pos, DaemonId, DaemonStatus, exit_code, Signal, hup, int, quit, term, kill, usr1, usr2, stop,
  cont,
}
use duende.Core.Adapter.{
  PlatformError, PlatformResult, err, ok, spawn_failed, signal_failed, status_failed, tracer_failed,
  config, Message, text, with_code, with_text, HandleData, pepita, DaemonHandle, pepita_handle,
  vsock_cid_of, TracerHandle, remote_vsock,
}
use duende.Core.Adapters.Tool.{
  Call, not_run, finished, Tool, success, succeeded, checked, done_with, replace,
}

pub data VmState : Type 0 where
  starting running paused stopped failed : VmState

pub record VmInfo : Type 0 where
  pub vm_id : List ℕ
  pub vsock_cid : ℕ  -- u32
  pub vmm_pid : Option ℕ
  pub state : VmState

unfoldable pub vm_id : List ℕ → List ℕ
unfolding replace
vm_id daemon_name = chars "duende-vm-" ++ replace 95 45 (replace 32 45 daemon_name)

unfoldable pub signal_number : Signal → ℕ
signal_number term = 15
signal_number kill = 9
signal_number int = 2
signal_number quit = 3
signal_number hup = 1
signal_number usr1 = 10
signal_number usr2 = 12
signal_number stop = 19
signal_number cont = 18

abbrev pub vm_id_of : HandleData → Option (List ℕ)
vm_id_of (pepita vm_id cid) = some vm_id
vm_id_of _ = none

abbrev pub pepita_vm_id : DaemonHandle → Option (List ℕ)
pepita_vm_id h = vm_id_of h.handle_data

abbrev pub ends : Signal → Bool
ends term = true
ends kill = true
ends _ = false

unfoldable pub parse_state : List ℕ → DaemonStatus
parse_state out =
    if contains (chars "\"state\": \"running\"") out || contains (chars "\"state\":\"running\"") out
    then DaemonStatus.running
    else if contains (chars "\"state\": \"paused\"") out
    then DaemonStatus.paused
    else if contains (chars "\"state\": \"failed\"") out
    then DaemonStatus.failed (exit_code (pos 1))
    else DaemonStatus.stopped

abbrev pub run_args : List ℕ → List ℕ → List ℕ → ℕ → List (List ℕ)
run_args kernel rootfs name cid =
    chars "pepita"
    ∷ chars "run"
    ∷ chars "--kernel"
    ∷ kernel
    ∷ chars "--rootfs"
    ∷ rootfs
    ∷ chars "--vsock-cid"
    ∷ to_string cid
    ∷ chars "--memory"
    ∷ chars "256"
    ∷ chars "--cpus"
    ∷ chars "1"
    ∷ chars "--name"
    ∷ name
    ∷ chars "--daemon"
    ∷ []

abbrev pub signal_args : List ℕ → Signal → List (List ℕ)
signal_args name sig =
    chars "pepita"
    ∷ chars "signal"
    ∷ chars "--name"
    ∷ name
    ∷ chars "--signal"
    ∷ to_string (signal_number sig)
    ∷ []

abbrev pub status_args : List ℕ → List (List ℕ)
status_args name = chars "pepita" ∷ chars "status" ∷ chars "--name" ∷ name ∷ chars "--json" ∷ []

abbrev pub no_handle : PlatformError
no_handle = spawn_failed (text "Invalid handle type for pepita adapter")

abbrev pub unable : (Message → PlatformError) → ℕ → PlatformError
unable failure code = failure (with_code "Failed to execute pepita: " code)

abbrev pub status_answer : Call → PlatformResult DaemonStatus
status_answer (not_run code) = err (unable status_failed code)
status_answer (finished code out error) =
    ok (if success code then parse_state out else DaemonStatus.stopped)

abbrev pub names_answer : Call → PlatformResult (List (List ℕ))
names_answer (not_run code) = err (unable spawn_failed code)
names_answer (finished code out error) = ok (if success code then lines_from [] out else [])

abbrev pub with_vm_state : VmState → List (DaemonId × VmInfo) → DaemonId → List (DaemonId × VmInfo)
with_vm_state state vms id = elim (lookup id vms) [
  | none ↦ vms
  | some info ↦ insert id (record info { state = state }) vms
]

unfoldable pub attach_tracer : DaemonHandle → PlatformResult TracerHandle
attach_tracer h = elim (vsock_cid_of h.handle_data) [
  | none ↦ err no_handle
  | some cid ↦
      if cid == 0
      then err (tracer_failed (text "VM not running"))
      else ok record { daemon_id = h.id; tracer_type = remote_vsock }
]

module _ (t : Tool) where
  pub record PepitaAdapter : Type 0 where
    pub vsock_base_port : ℕ  -- u32
    pub vms : List (DaemonId × VmInfo)
    pub default_kernel : Option (List ℕ)
    pub default_rootfs : Option (List ℕ)
    pub next_cid : ℕ
    pub tool : t.State

  abbrev pub with_vsock_port : ℕ → ℕ → t.State → PepitaAdapter
  with_vsock_port port next s = record {
    vsock_base_port = port;
    vms = [];
    default_kernel = none;
    default_rootfs = none;
    next_cid = next;
    tool = s;
  }

  abbrev pub new : ℕ → t.State → PepitaAdapter
  new = with_vsock_port 5000

  abbrev pub with_images : List ℕ → List ℕ → ℕ → t.State → PepitaAdapter
  with_images kernel rootfs next s = record (new next s) {
    default_kernel = some kernel;
    default_rootfs = some rootfs;
  }

  abbrev pub pepita_available : t.State → Bool × t.State
  pepita_available s =
      let args = chars "pepita" ∷ chars "--version" ∷ [] in
      (succeeded (t.run args s).0, (t.run args s).1)

  abbrev pub started : List ℕ → ℕ → VmInfo
  started name cid = record {
    vm_id = name;
    vsock_cid = cid;
    vmm_pid = none;
    state = VmState.running;
  }

  -- After the tool's answer.
  abbrev pub registered :
      DaemonId
      → List ℕ
      → ℕ
      → PlatformResult (List ℕ)
      → PepitaAdapter
      → PlatformResult DaemonHandle × PepitaAdapter
  registered id name cid (err e) a = (err e, a)
  registered id name cid (ok out) a =
      (ok (pepita_handle id name cid), record a { vms = insert id (started name cid) a.vms })

  abbrev pub launch :
      DaemonId
      → List ℕ
      → List ℕ
      → List ℕ
      → PepitaAdapter
      → PlatformResult DaemonHandle × PepitaAdapter
  launch id name kernel rootfs a =
      let args = run_args kernel rootfs name a.next_cid in
      registered id name a.next_cid
        (checked (unable spawn_failed)
          (λ error. spawn_failed (with_text "pepita run failed: " error)) (t.run args a.tool).0)
        (record a { next_cid = wrap32 (a.next_cid + 1); tool = (t.run args a.tool).1 })

  abbrev pub with_kernel :
      DaemonId
      → List ℕ
      → Option (List ℕ)
      → Option (List ℕ)
      → PepitaAdapter
      → PlatformResult DaemonHandle × PepitaAdapter
  with_kernel id daemon_name none rootfs a =
      (err (config (text "No kernel image configured. Use with_images() to set kernel path.")), a)
  with_kernel id daemon_name (some kernel) none a =
      (err (config (text "No rootfs image configured. Use with_images() to set rootfs path.")), a)
  with_kernel id daemon_name (some kernel) (some rootfs) a =
      launch id (vm_id daemon_name) kernel rootfs a

  -- `kvm` is whether `/dev/kvm` is there.
  unfoldable pub spawn :
      Bool → DaemonId → List ℕ → PepitaAdapter → PlatformResult DaemonHandle × PepitaAdapter
  spawn false id daemon_name a = (
    err (
        spawn_failed (
          text
            "KVM not available: /dev/kvm not found. Ensure KVM is enabled and you have permissions.")),
    a,
  )
  spawn true id daemon_name a =
      let b = record a { tool = (pepita_available a.tool).1 } in
      if (pepita_available a.tool).0
      then with_kernel id daemon_name a.default_kernel a.default_rootfs b
      else (err (spawn_failed (text "pepita VMM not found. Install pepita or add it to PATH.")), b)

  abbrev pub signalled :
      DaemonId
      → Signal
      → PlatformResult (Unit {0})
      → PepitaAdapter
      → PlatformResult (Unit {0}) × PepitaAdapter
  signalled id sig (err e) a = (err e, a)
  signalled id sig (ok u) a =
      let after = record a { vms = with_vm_state VmState.stopped a.vms id } in
      (ok tt, if ends sig then after else a)

  unfoldable pub send_signal :
      DaemonHandle → Signal → PepitaAdapter → PlatformResult (Unit {0}) × PepitaAdapter
  send_signal h sig a = elim (pepita_vm_id h) [
    | none ↦ (err no_handle, a)
    | some name ↦
        signalled h.id sig
          (done_with tt (
            checked (unable signal_failed)
              (λ error. signal_failed (with_text "pepita signal failed: " error))
              (t.run (signal_args name sig) a.tool).0))
          (record a { tool = (t.run (signal_args name sig) a.tool).1 })
  ]

  unfoldable pub status : DaemonHandle → PepitaAdapter → PlatformResult DaemonStatus × PepitaAdapter
  status h a = elim (pepita_vm_id h) [
    | none ↦ (err no_handle, a)
    | some name ↦ (
      status_answer (t.run (status_args name) a.tool).0,
      record a { tool = (t.run (status_args name) a.tool).1 },
    )
  ]

  abbrev pub destroyed : Call → PlatformResult (Unit {0})
  destroyed (not_run code) = err (unable spawn_failed code)
  destroyed (finished code out error) = ok tt

  unfoldable pub destroy : List ℕ → PepitaAdapter → PlatformResult (Unit {0}) × PepitaAdapter
  destroy name a =
      let args = chars "pepita" ∷ chars "destroy" ∷ chars "--name" ∷ name ∷ chars "--force" ∷ [] in
      (destroyed (t.run args a.tool).0, record a { tool = (t.run args a.tool).1 })

  unfoldable pub list_vms : PepitaAdapter → PlatformResult (List (List ℕ)) × PepitaAdapter
  list_vms a =
      let args = chars "pepita" ∷ chars "list" ∷ chars "--format" ∷ chars "name" ∷ [] in
      (names_answer (t.run args a.tool).0, record a { tool = (t.run args a.tool).1 })
