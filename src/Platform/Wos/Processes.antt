-- ===== src/Platform/Wos/Processes.antt =====
-- What `spawn`, `signal`, `status` and `attach_tracer` do to one process (wos.rs).
use duende.Prelude.{
  ℕ, ◌<◌, ◌≡◌, refl, false, Option, none, some, String, arith, u32_mod, if◌then◌else◌, ◌==◌,
}
use duende.Prelude.Float.{F64}
use duende.Prelude.Map.{lookup, insert, lookup-insert, lookup-remove}
use duende.Prelude.Decimal.{parse-to_string}
use duende.Core.Types.{DaemonStatus, Signal, kill, term, stop, cont}
use duende.Core.Config
use duende.Core.Adapter.{Message, text}
use duende.Platform.Error.{PlatformError, ok, err}
use duende.Platform.Handle.{wos_handle}
use duende.Platform.Wos.{
  real_time, config_to_priority, ProcessInfo, ProcessState, running, WosAdapter, process_info,
  state_to_status, spawn, signal, status, handle_pid, apply_signal, is_over, deliver, signal_pid,
  attach_tracer,
}

handle_pid-wos :
    (wrap : Message → PlatformError) (pid : ℕ)
    → pid < u32_mod
    → handle_pid wrap (wos_handle pid) ≡ ok pid
handle_pid-wos wrap pid h = rw (parse-to_string u32_mod pid h (omega arith)) refl

status_found :
    (pid : ℕ) (a : WosAdapter) (process : ProcessInfo)
    → pid < u32_mod
    → lookup pid a.processes ≡ some process
    → status (wos_handle pid) a ≡ ok (state_to_status process.state)
unfolding status
status_found pid a process h e = rw (parse-to_string u32_mod pid h (omega arith), e) refl

-- A spawned process has the highest priority and 512 MiB, whatever the adapter's default priority
-- and memory limit are: the configuration that `spawn` builds asks for a quota of 100.
pub process_info_lem :
    (f : F64) (a : WosAdapter) (name : String) (pid : ℕ)
    → process_info f a name pid ≡ record {
      pid = pid;
      name = name;
      state = running;
      priority = real_time;
      base_priority = real_time;
      parent_pid = 1;
      memory_limit = 536870912;
    }
unfolding process_info config_to_priority Config.new Config.default_resources
process_info_lem f a name pid =
    rw
      (
        f.lt-of_nat 0 100 (omega arith) (omega arith),
        f.le-of_nat 90 100 (omega arith) (omega arith),
      )
      refl

-- While the counter is a 32-bit number, `spawn` succeeds; the handle it returns finds the process,
-- which runs, and every other entry of the table is kept.
pub spawn-status :
    (f : F64) (name : String) (next : ℕ) (a : WosAdapter)
    → next < u32_mod
    → ((spawn f name next a).0 ≡ ok (wos_handle next))
      × (status (wos_handle next) (spawn f name next a).2 ≡ ok DaemonStatus.running)
      × ((j : ℕ)
          → lookup j (spawn f name next a).2.processes
            ≡ (if next == j then some (process_info f a name next) else lookup j a.processes))
unfolding spawn status process_info
spawn-status f name next a h = (
  refl,
  status_found next (spawn f name next a).2 (process_info f a name next) h
      (ground (arith, lookup-insert next next (process_info f a name next) a.processes)),
  λ j. lookup-insert next j (process_info f a name next) a.processes,
)

-- What a signal makes of a process: it is gone, or it goes on in a state.
abbrev pub after : Signal → ProcessState → Option ProcessState
after kill st = none
after term st = none
after stop st = some ProcessState.blocked
after cont ProcessState.blocked = some ProcessState.ready
after cont st = some st
after _ st = some st

abbrev pub with_state : ProcessInfo → Option ProcessState → Option ProcessInfo
with_state p none = none
with_state p (some st) = some (record p { state = st })

after_lem :
    (s : Signal) (st : ProcessState)
    → is_over st ≡ false
    → (if is_over (apply_signal st s) then none else some (apply_signal st s)) ≡ after s st
unfolding apply_signal
after_lem s st h = ground arith

deliver_lem :
    (s : Signal) (pid : ℕ) (a : WosAdapter) (p : ProcessInfo) (j : ℕ)
    → is_over p.state ≡ false
    → lookup j (deliver s pid a p).processes
      ≡ (if pid == j then with_state p (after s p.state) else lookup j a.processes)
deliver_lem s pid a p j v =
    let p' = record p { state = apply_signal p.state s } in
    ground (
      arith,
      after_lem s p.state v,
      lookup-insert pid j p' a.processes,
      lookup-remove pid j (insert pid p' a.processes),
    )

signal_found :
    (pid : ℕ) (s : Signal) (a : WosAdapter) (process : ProcessInfo)
    → pid < u32_mod
    → lookup pid a.processes ≡ some process
    → signal (wos_handle pid) s a ≡ (ok tt, deliver s pid a process)
unfolding signal
signal_found pid s a process h e =
    rw (parse-to_string u32_mod pid h (omega arith), signal_pid, e) refl

-- A signal to a process that is not over succeeds: TERM and KILL remove it from the table, STOP
-- blocks it, CONT makes a blocked process ready, any other signal changes nothing. The rest of the
-- process and all other processes stay as they are.
pub signal_process :
    (pid : ℕ) (s : Signal) (a : WosAdapter) (process : ProcessInfo)
    → pid < u32_mod
    → lookup pid a.processes ≡ some process
    → is_over process.state ≡ false
    → ((signal (wos_handle pid) s a).0 ≡ ok tt)
      × ((j : ℕ)
          → lookup j (signal (wos_handle pid) s a).1.processes ≡ (
              if pid == j
              then with_state process (after s process.state)
              else lookup j a.processes))
signal_process pid s a process h e v =
    rw (signal_found pid s a process h e) (refl, λ j. deliver_lem s pid a process j v)

-- A handle whose process is gone: a signal fails and changes nothing, the status is `Stopped`, and no
-- tracer is attached.
pub absent :
    (pid : ℕ) (s : Signal) (a : WosAdapter)
    → pid < u32_mod
    → lookup pid a.processes ≡ none
    → (signal (wos_handle pid) s a ≡ (err (PlatformError.signal (text "process not found")), a))
      × (status (wos_handle pid) a ≡ ok DaemonStatus.stopped)
      × (attach_tracer (wos_handle pid) a ≡ err (PlatformError.tracer (text "process not running")))
unfolding signal status attach_tracer
absent pid s a h e =
    let d = parse-to_string u32_mod pid h (omega arith) in
    (rw (d, signal_pid, e) refl, rw (d, e) refl, rw (d, e) refl)
