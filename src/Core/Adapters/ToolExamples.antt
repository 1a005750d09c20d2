-- ===== src/Core/Adapters/ToolExamples.antt =====
-- The theorems on the adapters that run tools, at concrete answers of the tools (systemd.rs,
-- container.rs, launchd.rs, pepita.rs).
use duende.Prelude.{
  ℕ, ◌+◌, ◌≡◌, ◌↔◌, refl, true, Option, none, some, List, [], ◌∷◌, arith, if◌then◌else◌,
}
use duende.Prelude.Text.{chars, same_text, contains}
use duende.Prelude.Text.Finding.{same_text_refl}
use duende.Prelude.Decimal.{parse_digits}
use duende.Core.Types.{running, stopped, term}
use duende.Core.Adapter.{ok, stop_daemon, systemd_handle, container_handle}
use duende.Core.Adapters.Tool.{finished, Tool}
use duende.Core.Adapters.Systemd
use duende.Core.Adapters.Systemd.Status.{Active, status-running}
use duende.Core.Adapters.Container
use duende.Core.Adapters.Container.{of_runtime, docker, status_args, signal_args}
use duende.Core.Adapters.Container.Operations
use duende.Core.Adapters.Container.Status.{Running, status-Running}
use duende.Core.Adapters.Launchd.{status_of_lines, for_system}
use duende.Core.Adapters.Launchd.Operations.{Host, spawn}
use duende.Core.Adapters.Launchd.Listing.{row, row_status, status_of_lines-row}
use duende.Core.Adapters.Launchd.Files.{Files, Outcome, spawn-Outcome}
use duende.Core.Adapters.Pepita
use duende.Core.Adapters.Pepita.{PepitaAdapter, VmInfo}
use duende.Core.Adapters.Timed.{TimedTool, containers}
use duende.Core.Adapters.Timed.Stopping.{stop_daemon_compact}

-- Every command succeeds and prints the text, and takes a nanosecond.
abbrev prints : List ℕ → Tool
prints out = record { State = ℕ; run = λ args s. (finished (some 0) out [], s + 1) }

abbrev timed : List ℕ → TimedTool
timed out = record {
  tool = prints out;
  now = λ s. s;
  sleep = λ n s. s + n;
  run_takes = λ args s. omega arith;
  sleep_takes = λ n s. omega arith;
}

abbrev active_text : List ℕ
active_text = chars "web.service\n   Active: active (running) since Thu\n"

status-running_example :
    ((Systemd.status
        (prints active_text)
        Systemd.system
        (systemd_handle 1 (chars "web.service"))
        0).0
      ≡ ok running)
    ↔ Active (prints active_text) Systemd.system (systemd_handle 1 (chars "web.service")) 0
status-running_example =
    status-running (prints active_text) Systemd.system (systemd_handle 1 (chars "web.service")) 0

-- As Docker prints the state of a container that runs.
abbrev compact_text : List ℕ
compact_text = chars "{\"Status\":\"running\",\"Running\":true,\"Paused\":false,\"ExitCode\":0}"

compact_reads_stopped : Container.parse_status compact_text ≡ stopped
unfolding Container.parse_status Container.other_status contains parse_digits
compact_reads_stopped = refl

status-Running_example :
    ((Operations.status
        (prints compact_text)
        (of_runtime docker)
        (container_handle 1 (chars "docker") (chars "c1"))
        0).0
      ≡ ok running)
    ↔ Running
        (prints compact_text)
        (of_runtime docker)
        (container_handle 1 (chars "docker") (chars "c1"))
        0
status-Running_example =
    status-Running (prints compact_text) (of_runtime docker)
      (container_handle 1 (chars "docker") (chars "c1")) 0

sent :
    Operations.send_signal
      (prints compact_text)
      (of_runtime docker)
      (container_handle 1 (chars "docker") (chars "c1"))
      term
      0
    ≡ (ok tt, 1)
unfolding Operations.send_signal
sent = refl

stop_daemon_compact_example :
    stop_daemon
      (containers (timed compact_text) (of_runtime docker))
      (container_handle 1 (chars "docker") (chars "c1"))
      1000
      0
    ≡ some (ok tt, 2)
stop_daemon_compact_example =
    stop_daemon_compact (timed compact_text) (of_runtime docker)
      (container_handle 1 (chars "docker") (chars "c1")) 1000 0 1 (chars "c1") compact_text []
      (omega arith) sent refl refl (ground arith)

-- The first of two services has the other's label in its own.
status_of_lines-row_example :
    status_of_lines (chars "com.duende.web") (
      row (chars "12") (chars "0") (chars "com.duende.web2")
      ∷ row (chars "-") (chars "1") (chars "com.duende.web")
      ∷ [])
    ≡ row_status (chars "12") (chars "0")
status_of_lines-row_example =
    status_of_lines-row (chars "com.duende.web") (chars "12") (chars "0") (chars "com.duende.web2")
      [] (row (chars "-") (chars "1") (chars "com.duende.web") ∷ [])
      (99, chars "om.duende.web", refl) (ground arith) (ground arith) ([], chars "2", refl) tt

-- Files as a function of the path; `launchctl` refuses everything.
abbrev put : List ℕ → Option (List ℕ) → (List ℕ → Option (List ℕ)) → List ℕ → Option (List ℕ)
put path body files at = if same_text path at then body else files at

abbrev refusing : Host
refusing = record {
  tool = record {
    State = List ℕ → Option (List ℕ);
    run = λ args s. (finished (some 5) [] (chars "Bootstrap failed: 5"), s);
  };
  uid = 501;
  create_dir_all = λ path s. (none, s);
  write = λ path body s. (none, put path (some body) s);
  remove_file = λ path s. (none, put path none s);
}

put_lem :
    (path : List ℕ) (body : Option (List ℕ)) (s : List ℕ → Option (List ℕ))
    → put path body s path ≡ body
put_lem path body s = rw (same_text_refl path) refl

refusing-Files : Files refusing
refusing-Files = record {
  content = λ path s. s path;
  written = λ path body s e. put_lem path (some body) s;
  removed = λ path s e. put_lem path none s;
  untouched = λ domain path s. refl;
}

spawn-Outcome_example :
    Outcome refusing refusing-Files for_system 1
      (chars "web")
      (λ path. none)
      (spawn refusing for_system 1 (chars "web") (λ path. none))
spawn-Outcome_example =
    spawn-Outcome refusing refusing-Files for_system 1 (chars "web") (λ path. none)

abbrev quiet : Tool
quiet = prints []

abbrev at_first : PepitaAdapter quiet
at_first = Pepita.with_images quiet (chars "/kernel") (chars "/rootfs") 3 0

abbrev one_machine : PepitaAdapter quiet
unfolding Pepita.spawn
one_machine = (Pepita.spawn quiet true 1 (chars "web") at_first).1

abbrev two_machines : PepitaAdapter quiet
unfolding Pepita.spawn
two_machines = (Pepita.spawn quiet true 2 (chars "db") one_machine).1

abbrev machine : List ℕ → ℕ → VmInfo
machine name cid = record {
  vm_id = name;
  vsock_cid = cid;
  vmm_pid = none;
  state = Pepita.VmState.running;
}
