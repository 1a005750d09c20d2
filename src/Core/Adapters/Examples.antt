-- ===== src/Core/Adapters/Examples.antt =====
-- The adapters' theorems at concrete inputs: a daemon that ends a quarter of a second after the clock
-- began, and WOS without its tool (adapter.rs, native.rs, wos.rs).
use duende.Prelude.{ℕ, ◌+◌, ◌≡◌, ◌⊎◌, refl, none, some, [], ◌∷◌, arith, ltb, if◌then◌else◌}
use duende.Prelude.Text.{chars}
use duende.Prelude.Map.{lookup, remove}
use duende.Core.Types.{DaemonStatus, running, stopped, term, kill, stop, cont, pos, is_terminal}
use duende.Core.Adapter.{
  PlatformAdapter, PlatformError, PlatformResult, ok, err, stop_daemon, seen_terminal,
  native_handle, wos_handle,
}
use duende.Core.Adapter.Stopping.{Waited, stop_daemon_finishes}
use duende.Core.Adapters.Native.{
  Children, Poll, alive, ended, exited, Spawned, started, NativeAdapter, send_signal, status,
}
use duende.Core.Adapters.Native
use duende.Core.Adapters.Native.Table.{stop_finishes, status-kill}
use duende.Core.Adapters.Wos
use duende.Core.Adapters.Tool.{not_run, Tool}
use duende.Core.Adapters.Wos.{ProcessInfo, priority_from_name, priority_name}
use duende.Core.Adapters.Wos.Operations
use duende.Core.Adapters.Wos.Operations.{WosAdapter, renice_args}
use duende.Core.Adapters.Wos.Signals.{priority_from_name-priority_name, status-cont-stop}

abbrev status_at : ℕ → DaemonStatus
status_at clock = if ltb clock 250000000 then running else stopped

-- The state of the world is its clock.
abbrev brief : PlatformAdapter
brief = record {
  State = ℕ;
  signal = λ h sig clock. (ok tt, clock);
  status = λ h clock. (ok (status_at clock), clock);
  now = λ clock. clock;
  sleep = λ n clock. clock + n;
  status_takes = λ h clock. omega arith;
  sleep_takes = λ n clock. omega arith;
}

stop_daemon_test : stop_daemon brief (native_handle 7 100) 1000000000 0 ≡ some (ok tt, 300000000)
unfolding stop_daemon seen_terminal is_terminal
stop_daemon_test = refl

stop_daemon_finishes_example :
    (r : PlatformResult (Unit {0})) × (clock : ℕ) × (stop_daemon brief
        (native_handle 7 100)
        1000000000
        0
      ≡ some (r, clock))
    × (((e : PlatformError) × (brief.signal (native_handle 7 100) term 0 ≡ (err e, clock))
          × (r ≡ err e))
        ⊎ Waited brief (native_handle 7 100) 1000000000 0 r clock)
stop_daemon_finishes_example = stop_daemon_finishes brief (native_handle 7 100) 1000000000 0

abbrev poll_at : ℕ → Poll
poll_at clock = if ltb clock 250000000 then alive else ended (exited (pos 0))

abbrev one_child : Children
one_child = record {
  State = ℕ;
  spawn = λ clock. (started 100, clock);
  send = λ p sig clock. (none, clock);
  start_kill = λ p clock. clock;
  try_wait = λ p clock. (poll_at clock, clock);
  now = λ clock. clock;
  sleep = λ n clock. clock + n;
  send_takes = λ p sig clock. omega arith;
  try_wait_takes = λ p clock. omega arith;
  sleep_takes = λ n clock. omega arith;
}

abbrev tracked : NativeAdapter one_child
tracked = record { processes = (7, 100) ∷ []; system = 0 }

abbrev untracked : NativeAdapter one_child
untracked = record { processes = []; system = 0 }

stop_finishes_example :
    (r : PlatformResult (Unit {0})) × (b : NativeAdapter one_child) × (Native.stop one_child
        (native_handle 7 100)
        1000000000
        tracked
      ≡ some (r, b))
    × (((r ≡ ok tt) × (lookup 7 b.processes ≡ none)) ⊎ ((e : PlatformError) × (r ≡ err e)))
stop_finishes_example = stop_finishes one_child (native_handle 7 100) 1000000000 tracked

killed : send_signal one_child (native_handle 7 100) kill tracked ≡ (ok tt, untracked)
unfolding send_signal lookup remove
killed = refl

status-kill_example : status one_child (native_handle 7 100) untracked ≡ (ok stopped, untracked)
status-kill_example = status-kill one_child (native_handle 7 100) tracked untracked killed

priority_from_name-priority_name_example : priority_from_name (priority_name 3) ≡ some 3
priority_from_name-priority_name_example = priority_from_name-priority_name 3 (omega arith)

-- Every call of the tool fails with the code for a missing file.
abbrev no_tool : Tool
no_tool = record { State = Unit {0}; run = λ args s. (not_run 2, s) }

abbrev dead : ProcessInfo
dead = record {
  pid = 5;
  parent_pid = 1;
  name = chars "web";
  priority = 4;
  state = Wos.ProcessState.killed (pos 9);
}

abbrev one_process : WosAdapter no_tool
one_process = record { default_priority = 4; processes = (5, dead) ∷ []; next_pid = 6; tool = tt }

found : lookup 5 one_process.processes ≡ some dead
unfolding lookup
found = refl

status-cont-stop_example :
    (Operations.status no_tool
      (wos_handle 9 5)
      (Operations.send_signal no_tool
        (wos_handle 9 5)
        cont
        (Operations.send_signal no_tool (wos_handle 9 5) stop one_process).1).1).0
    ≡ ok running
status-cont-stop_example =
    status-cont-stop no_tool (wos_handle 9 5) one_process 5 dead (λ s. refl) refl found
