-- ===== src/Platform/Wos.antt =====
-- crates/duende-platform/src/wos.rs: the adapter that simulates the processes of WOS, with
-- priorities and a process table. The counter `NEXT_PID` is passed to the calls that use it, and
-- `f64` is the carrier of the interface `F64`.
pub mod Priorities
pub mod Processes
pub mod Lifecycle
use duende.Prelude.{
  ℕ, ◌+◌, Bool, true, false, not, ◌&&◌, Option, none, some, List, [], ◌∷◌, ◌++◌, String, ltb, ◌==◌,
  if◌then◌else◌, wrap32, u32_mod,
}
use duende.Prelude.Float.{F64}
use duende.Prelude.Map.{lookup, insert, remove}
use duende.Prelude.Decimal.{parse, to_string}
use duende.Core.Types.{
  DaemonStatus, FailureReason, Signal, ℤ, pos, negsuc, kill, term, stop, cont, hup, int, quit, usr1,
  usr2,
}
use duende.Core.Config
use duende.Core.Config.{DaemonConfig}
use duende.Core.Adapter.{Message, text}
use duende.Platform.Error.{PlatformError, Result, ok, err, ◌>>=◌, ok_or}
use duende.Platform.Handle.{DaemonHandle, TracerHandle, Platform, is_wos, wos_handle}

pub data Priority : Type 0 where
  idle low below_normal normal above_normal high very_high real_time : Priority

unfoldable pub as_u8 : Priority → ℕ
as_u8 idle = 0
as_u8 low = 1
as_u8 below_normal = 2
as_u8 normal = 3
as_u8 above_normal = 4
as_u8 high = 5
as_u8 very_high = 6
as_u8 real_time = 7

unfoldable pub from_u8 : ℕ → Priority
from_u8 value =
    if value == 0
    then idle
    else if value == 1
    then low
    else if value == 2
    then below_normal
    else if value == 3
    then normal
    else if value == 4
    then above_normal
    else if value == 5
    then high
    else if value == 6
    then very_high
    else real_time

-- The derived order of the variants is the order of their discriminants.
unfoldable pub age : Priority → Priority
unfolding as_u8
age p = if ltb (as_u8 p) (as_u8 real_time) then from_u8 (as_u8 p + 1) else p

pub data ProcessState : Type 0 where
  created ready running blocked : ProcessState
  exited : ℤ → ProcessState
  killed : Signal → ProcessState

pub record ProcessInfo : Type 0 where
  pub pid : ℕ  -- u32
  pub name : String
  pub state : ProcessState
  pub priority : Priority
  pub base_priority : Priority
  pub parent_pid : ℕ  -- u32
  pub memory_limit : ℕ  -- u64

pub record WosAdapter : Type 0 where
  pub default_priority : Priority
  pub aging_enabled : Bool
  pub memory_limit : ℕ  -- u64
  pub processes : List (ℕ × ProcessInfo)

unfoldable pub new : WosAdapter
new = record {
  default_priority = normal;
  aging_enabled = true;
  memory_limit = 67108864;
  processes = [];
}

abbrev pub with_priority : Priority → WosAdapter → WosAdapter
with_priority p a = record a { default_priority = p }

abbrev pub with_aging : Bool → WosAdapter → WosAdapter
with_aging enabled a = record a { aging_enabled = enabled }

abbrev pub with_memory_limit : ℕ → WosAdapter → WosAdapter
with_memory_limit limit a = record a { memory_limit = limit }

-- `NEXT_PID.fetch_add(1)`: the PID, and the counter after it.
abbrev pub allocate_pid : ℕ → ℕ × ℕ
allocate_pid next = (next, wrap32 (next + 1))

abbrev pub first_pid : ℕ
first_pid = 2

unfoldable pub config_to_priority : (f : F64) → DaemonConfig f.Carrier → Priority
config_to_priority f config =
    let quota = config.resources.cpu_quota_percent in
    if f.le (f.of_nat 90) quota
    then real_time
    else if f.le (f.of_nat 75) quota
    then very_high
    else if f.le (f.of_nat 60) quota
    then high
    else if f.le (f.of_nat 45) quota
    then above_normal
    else if f.le (f.of_nat 30) quota
    then normal
    else if f.le (f.of_nat 15) quota
    then below_normal
    else if f.lt (f.of_nat 0) quota
    then low
    else normal

abbrev pub sig_num : Signal → ℤ
sig_num term = pos 15
sig_num kill = pos 9
sig_num hup = pos 1
sig_num int = pos 2
sig_num quit = pos 3
sig_num usr1 = pos 10
sig_num usr2 = pos 12
sig_num stop = pos 19
sig_num cont = pos 18

abbrev is_zero : ℤ → Bool
is_zero (pos n) = n == 0
is_zero (negsuc n) = false

unfoldable pub state_to_status : ProcessState → DaemonStatus
state_to_status created = DaemonStatus.created
state_to_status ready = DaemonStatus.running
state_to_status running = DaemonStatus.running
state_to_status blocked = DaemonStatus.running
state_to_status (exited code) =
    if is_zero code
    then DaemonStatus.stopped
    else DaemonStatus.failed (FailureReason.exit_code code)
state_to_status (killed s) = DaemonStatus.failed (FailureReason.signal (sig_num s))

abbrev resume : ProcessState → ProcessState
resume blocked = ready
resume state = state

unfoldable pub apply_signal : ProcessState → Signal → ProcessState
apply_signal state kill = killed kill
apply_signal state term = killed term
apply_signal state stop = blocked
apply_signal state cont = resume state
apply_signal state _ = state

-- The `matches!` of `signal`.
abbrev pub is_over : ProcessState → Bool
is_over (exited code) = true
is_over (killed s) = true
is_over _ = false

-- The process that `spawn` makes; the configuration it reads is the default one under the
-- daemon's name.
unfoldable pub process_info : F64 → WosAdapter → String → ℕ → ProcessInfo
unfolding config_to_priority
process_info f a name pid =
    let config = Config.new f name "/wasm/daemon.wasm" in
    let priority =
      if f.lt (f.of_nat 0) config.resources.cpu_quota_percent
      then config_to_priority f config
      else a.default_priority in
    let memory =
      if ltb 0 config.resources.memory_bytes
      then config.resources.memory_bytes
      else a.memory_limit in
    record {
      pid = pid;
      name = name;
      state = running;
      priority = priority;
      base_priority = priority;
      parent_pid = 1;
      memory_limit = memory;
    }

-- The daemon's name, the counter, and the adapter, to the result, the counter and the adapter.
unfoldable pub spawn : F64 → String → ℕ → WosAdapter → Result DaemonHandle × ℕ × WosAdapter
unfolding process_info
spawn f name next a =
    let (pid, next') = allocate_pid next in
    (
      ok (wos_handle pid),
      next',
      record a { processes = insert pid (process_info f a name pid) a.processes },
    )

-- `handle.id.parse::<u32>()` after the test of the platform; the messages are errors of one
-- constructor.
abbrev pub handle_pid : (Message → PlatformError) → DaemonHandle → Result ℕ
handle_pid wrap handle =
    if is_wos handle.platform
    then ok_or (wrap (text "invalid PID")) (parse u32_mod handle.id)
    else err (wrap (text "not a WOS handle"))

abbrev pub deliver : Signal → ℕ → WosAdapter → ProcessInfo → WosAdapter
deliver s pid a process =
    let state = apply_signal process.state s in
    let processes = insert pid (record process { state = state }) a.processes in
    record a { processes = if is_over state then remove pid processes else processes }

abbrev pub signal_pid : Signal → WosAdapter → Result ℕ → Result (Unit {0}) × WosAdapter
signal_pid s a (err e) = (err e, a)
signal_pid s a (ok pid) = elim (lookup pid a.processes) [
  | none ↦ (err (PlatformError.signal (text "process not found")), a)
  | some process ↦ (ok tt, deliver s pid a process)
]

unfoldable pub signal : DaemonHandle → Signal → WosAdapter → Result (Unit {0}) × WosAdapter
unfolding apply_signal
signal handle s a = signal_pid s a (handle_pid PlatformError.signal handle)

-- `map_or(Stopped, ...)`.
abbrev pub status_of : Option ProcessInfo → DaemonStatus
status_of none = DaemonStatus.stopped
status_of (some process) = state_to_status process.state

unfoldable pub status : DaemonHandle → WosAdapter → Result DaemonStatus
unfolding state_to_status
status handle a =
    handle_pid PlatformError.status handle >>= λ pid. ok (status_of (lookup pid a.processes))

-- The codes of "wasm-trace:".
abbrev trace_prefix : List ℕ
trace_prefix = 119 ∷ 97 ∷ 115 ∷ 109 ∷ 45 ∷ 116 ∷ 114 ∷ 97 ∷ 99 ∷ 101 ∷ 58 ∷ []

unfoldable pub attach_tracer : DaemonHandle → WosAdapter → Result TracerHandle
attach_tracer handle a = handle_pid PlatformError.tracer handle >>= λ pid.
    ok_or (PlatformError.tracer (text "process not running")) (lookup pid a.processes)
    >>= λ process. ok (record { platform = Platform.wos; id = trace_prefix ++ to_string pid })
