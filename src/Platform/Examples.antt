-- ===== src/Platform/Examples.antt =====
-- The theorems of the platform adapters at concrete inputs: one process named "web" runs
-- (wos.rs).
use duende.Prelude.{◌≡◌, ◌⊎◌, refl, none, some, List, [], ◌∷◌, arith}
use duende.Prelude.Float.{whole}
use duende.Prelude.Map.{lookup, insert}
use duende.Prelude.Decimal.{print, parse, parse_digits}
use duende.Core.Types.{DaemonStatus, stop}
use duende.Platform.Error.{ok}
use duende.Platform.Handle.{wos_handle}
use duende.Platform.Wos.{
  WosAdapter, ProcessInfo, apply_signal, config_to_priority, blocked, real_time, running, new,
  process_info, spawn, signal, status,
}
use duende.Core.Config
use duende.Platform.Wos.Lifecycle.{Call, spawns, signals, step, run, start, status-run}

abbrev web_process : ProcessInfo
web_process = record {
  pid = 2;
  name = "web";
  state = running;
  priority = real_time;
  base_priority = real_time;
  parent_pid = 1;
  memory_limit = 536870912;
}

abbrev one_process : WosAdapter
unfolding new
one_process = record new { processes = (2, web_process) ∷ [] }

web_found : lookup 2 one_process.processes ≡ some web_process
unfolding lookup new
web_found = refl

three_absent : lookup 3 one_process.processes ≡ none
unfolding lookup new
three_absent = refl

abbrev calls : List Call
calls = spawns "web" ∷ signals (wos_handle 2) stop ∷ spawns "db" ∷ []

two_blocked :
    lookup 2 (run whole start calls).1.processes ≡ some (record web_process { state = blocked })
unfolding run step spawn signal process_info config_to_priority Config.new Config.default_resources
    new parse print parse_digits lookup insert apply_signal
two_blocked = refl

web_running : status (wos_handle 2) (run whole start calls).1 ≡ ok DaemonStatus.running
unfolding status run step spawn signal process_info new parse print parse_digits lookup insert
web_running = refl

status-run_example :
    (DaemonStatus.running ≡ DaemonStatus.running) ⊎ (DaemonStatus.running ≡ DaemonStatus.stopped)
status-run_example =
    status-run whole calls (wos_handle 2) DaemonStatus.running (omega arith) web_running
