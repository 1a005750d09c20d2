-- ===== src/Core/Adapter.antt =====
-- crates/duende-core/src/adapter.rs: the errors and handles of the platform adapters, and the
-- operations that every adapter has by default. Their messages are texts, or texts with a code.
pub mod Stopping
use duende.Prelude.{
  ℕ, zero, suc, ◌+◌, ◌-◌, ◌/◌, ◌≤◌, Bool, true, false, Option, none, some, String, List, ◌∷◌, ◌++◌,
  ltb, if◌then◌else◌,
}
use duende.Prelude.Text.{chars}
use duende.Prelude.Decimal.{to_string}
use duende.Core.Types.{DaemonId, DaemonStatus, is_terminal, Signal, term, kill, stop, cont}

pub data Platform : Type 0 where
  linux mac_os container pepita_micro_vm wos native : Platform

pub data Message : Type 0 where
  text : String → Message
  with_code : String → ℕ → Message
  with_text : String → List ℕ → Message
  of_id : DaemonId → Message

pub data PlatformError : Type 0 where
  not_supported : Platform → Message → PlatformError
  spawn_failed signal_failed status_failed tracer_failed : Message → PlatformError
  not_found invalid_state : Message → PlatformError
  timeout : ℕ → PlatformError
  io : ℕ → PlatformError
  config resource_limit permission_denied : Message → PlatformError

unfoldable pub is_not_supported : PlatformError → Bool
is_not_supported (not_supported p m) = true
is_not_supported _ = false

unfoldable pub is_recoverable : PlatformError → Bool
is_recoverable (timeout t) = true
is_recoverable (resource_limit m) = true
is_recoverable (invalid_state m) = true
is_recoverable _ = false

pub data PlatformResult {ℓ} (T : Type ℓ) : Type ℓ where
  err : PlatformError → PlatformResult T
  ok : T → PlatformResult T

pub data HandleData : Type 0 where
  systemd launchd : List ℕ → HandleData
  container : List ℕ → List ℕ → HandleData
  pepita : List ℕ → ℕ → HandleData
  wos native : ℕ → HandleData

pub record DaemonHandle : Type 0 where
  pub id : DaemonId
  pub platform : Platform
  pub handle_data : HandleData

abbrev pub systemd_handle : DaemonId → List ℕ → DaemonHandle
systemd_handle id unit_name = record { id = id; platform = linux; handle_data = systemd unit_name }

abbrev pub launchd_handle : DaemonId → List ℕ → DaemonHandle
launchd_handle id label = record { id = id; platform = mac_os; handle_data = launchd label }

abbrev pub wos_handle : DaemonId → ℕ → DaemonHandle
wos_handle id pid = record { id = id; platform = Platform.wos; handle_data = HandleData.wos pid }

abbrev pub native_handle : DaemonId → ℕ → DaemonHandle
native_handle id pid = record {
  id = id;
  platform = Platform.native;
  handle_data = HandleData.native pid;
}

abbrev pub container_handle : DaemonId → List ℕ → List ℕ → DaemonHandle
container_handle id runtime container_id = record {
  id = id;
  platform = Platform.container;
  handle_data = HandleData.container runtime container_id;
}

abbrev pub pepita_handle : DaemonId → List ℕ → ℕ → DaemonHandle
pepita_handle id vm_id vsock_cid = record {
  id = id;
  platform = pepita_micro_vm;
  handle_data = pepita vm_id vsock_cid;
}

abbrev pub launchd_label_of : HandleData → Option (List ℕ)
launchd_label_of (launchd label) = some label
launchd_label_of _ = none

abbrev pub container_id_of : HandleData → Option (List ℕ)
container_id_of (HandleData.container runtime container_id) = some container_id
container_id_of _ = none

abbrev pub vsock_cid_of : HandleData → Option ℕ
vsock_cid_of (pepita vm_id vsock_cid) = some vsock_cid
vsock_cid_of _ = none

-- `Display`.
unfoldable pub fmt_handle : HandleData → List ℕ
fmt_handle (systemd unit_name) = chars "systemd:" ++ unit_name
fmt_handle (launchd label) = chars "launchd:" ++ label
fmt_handle (HandleData.container runtime container_id) = runtime ++ (58 ∷ container_id)
fmt_handle (pepita vm_id vsock_cid) =
    chars "pepita:" ++ (vm_id ++ (chars "@cid" ++ to_string vsock_cid))
fmt_handle (HandleData.wos pid) = chars "wos:pid" ++ to_string pid
fmt_handle (HandleData.native pid) = chars "native:pid" ++ to_string pid

abbrev pub systemd_of : HandleData → Option (List ℕ)
systemd_of (systemd unit_name) = some unit_name
systemd_of _ = none

abbrev pub systemd_unit : DaemonHandle → Option (List ℕ)
systemd_unit h = systemd_of h.handle_data

abbrev pub pid_of : HandleData → Option ℕ
pid_of (HandleData.wos pid) = some pid
pid_of (HandleData.native pid) = some pid
pid_of _ = none

abbrev pub pid : DaemonHandle → Option ℕ
pid h = pid_of h.handle_data

pub data TracerType : Type 0 where
  ptrace ebpf remote_vsock simulated : TracerType

pub record TracerHandle : Type 0 where
  pub daemon_id : DaemonId
  pub tracer_type : TracerType

-- What an adapter supplies, on the state of its world; a call may take time, and a sleep takes what
-- it is asked for at least.
pub record PlatformAdapter : Type 1 where
  pub State : Type 0
  pub signal : DaemonHandle → Signal → State → PlatformResult (Unit {0}) × State
  pub status : DaemonHandle → State → PlatformResult DaemonStatus × State
  pub now : State → ℕ
  pub sleep : ℕ → State → State
  pub status_takes : (h : DaemonHandle) (s : State) → now s ≤ now (status h s).1
  pub sleep_takes : (n : ℕ) (s : State) → now s + n ≤ now (sleep n s)

unfoldable pub seen_terminal : PlatformResult DaemonStatus → Bool
unfolding is_terminal
seen_terminal (err e) = false
seen_terminal (ok status) = is_terminal status

-- The waits between two queries, in nanoseconds.
abbrev pub stop_pause : ℕ
stop_pause = 100000000

module _ (a : PlatformAdapter) where
  -- `none` while the daemon is not seen to have ended and the loop has run `fuel` times.
  unfoldable pub wait :
      ℕ → ℕ → ℕ → DaemonHandle → a.State → Option (PlatformResult (Unit {0}) × a.State)
  unfolding seen_terminal
  wait zero limit start h s = none
  wait (suc fuel) limit start h s =
      let s' = (a.status h s).1 in
      let later = wait fuel limit start h (a.sleep stop_pause s') in
      if ltb (a.now s - start) limit
      then (if seen_terminal (a.status h s).0 then some (ok tt, s') else later)
      else some (err (timeout limit), s)

  -- After the signal was sent.
  abbrev pub signalled :
      DaemonHandle
      → ℕ
      → PlatformResult (Unit {0}) × a.State
      → Option (PlatformResult (Unit {0}) × a.State)
  unfolding wait
  signalled h limit (err e, s) = some (err e, s)
  signalled h limit (ok done, s) = wait (limit / stop_pause + 2) limit (a.now s) h s

  unfoldable pub stop_daemon :
      DaemonHandle → ℕ → a.State → Option (PlatformResult (Unit {0}) × a.State)
  unfolding signalled
  stop_daemon h limit s = signalled h limit (a.signal h term s)

  abbrev pub kill_daemon : DaemonHandle → a.State → PlatformResult (Unit {0}) × a.State
  kill_daemon h s = a.signal h kill s

  abbrev pub pause : DaemonHandle → a.State → PlatformResult (Unit {0}) × a.State
  pause h s = a.signal h stop s

  abbrev pub resume : DaemonHandle → a.State → PlatformResult (Unit {0}) × a.State
  resume h s = a.signal h cont s
