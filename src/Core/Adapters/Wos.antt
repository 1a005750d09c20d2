-- ===== src/Core/Adapters/Wos.antt =====
-- crates/duende-core/src/adapters/wos.rs: WOS processes, by the tool `wos-ctl` where it can be run,
-- and by a local table of processes. The tool is an interface that answers each call.
pub mod Operations
pub mod Signals
use duende.Prelude.{
  ℕ, zero, suc, ◌+◌, Bool, true, false, not, ◌&&◌, ◌||◌, Option, none, some, String, List, [], ◌∷◌,
  ◌++◌, map, drop, ltb, leb, ◌==◌, if◌then◌else◌, wrap32, u32_mod,
}
use duende.Prelude.Map.{lookup, insert}
use duende.Prelude.Text.{
  chars, same_text, contains, find_after, take_while, split_whitespace, lines_from,
}
use duende.Prelude.Decimal.{to_string, parse, is_digit}
use duende.Core.Types.{
  ℤ, pos, negsuc, DaemonId, DaemonStatus, starting, paused, failed, signal, exit_code, Signal, hup,
  int, quit, term, kill, usr1, usr2, stop, cont,
}
use duende.Core.Adapters.Tool.{exit_code_from}
use duende.Core.Adapter.{
  PlatformError, PlatformResult, err, ok, spawn_failed, signal_failed, status_failed, tracer_failed,
  config, Message, text, with_code, with_text, DaemonHandle, wos_handle, pid, TracerHandle,
  simulated,
}

pub data ProcessState : Type 0 where
  ready running waiting stopped : ProcessState
  exited killed : ℤ → ProcessState

pub record ProcessInfo : Type 0 where
  pub pid : ℕ  -- u32
  pub parent_pid : ℕ  -- u32
  pub name : List ℕ
  pub priority : ℕ  -- u8
  pub state : ProcessState

unfoldable pub signal_number : Signal → ℕ
signal_number term = 15
signal_number kill = 9
signal_number int = 2
signal_number quit = 3
signal_number hup = 1
signal_number usr1 = 10
signal_number usr2 = 12
signal_number stop = 19
signal_number cont = 18

-- `to_lowercase` on ASCII; no other character has its lower case among the letters of the names.
abbrev pub to_lowercase : List ℕ → List ℕ
to_lowercase [] = []
to_lowercase (c ∷ cs) = (if leb 65 c && leb c 90 then c + 32 else c) ∷ to_lowercase cs

abbrev pub level_of : List ℕ → Option ℕ
level_of name =
    if same_text name (chars "critical")
    then some 0
    else if same_text name (chars "high")
    then some 1
    else if same_text name (chars "above_normal") || same_text name (chars "above-normal")
    then some 2
    else if same_text name (chars "normal_plus")
        || (same_text name (chars "normal-plus") || same_text name (chars "normal+"))
    then some 3
    else if same_text name (chars "normal")
    then some 4
    else if same_text name (chars "below_normal") || same_text name (chars "below-normal")
    then some 5
    else if same_text name (chars "low")
    then some 6
    else if same_text name (chars "idle")
    then some 7
    else none

unfoldable pub priority_from_name : List ℕ → Option ℕ
priority_from_name name = level_of (to_lowercase name)

unfoldable pub priority_name : ℕ → List ℕ
priority_name level =
    if level == 0
    then chars "critical"
    else if level == 1
    then chars "high"
    else if level == 2
    then chars "above_normal"
    else if level == 3
    then chars "normal_plus"
    else if level == 4
    then chars "normal"
    else if level == 5
    then chars "below_normal"
    else if level == 6
    then chars "low"
    else if level == 7
    then chars "idle"
    else chars "unknown"

unfoldable pub extract_exit_code : List ℕ → Option ℤ
unfolding exit_code_from
extract_exit_code output =
    exit_code_from (chars "\"exit_code\": " ∷ chars "\"exit_code\":" ∷ []) output

-- A status code other than 0 is a failure.
abbrev pub ended_with : ℤ → DaemonStatus
ended_with (pos zero) = DaemonStatus.stopped
ended_with code = failed (exit_code code)

abbrev pub exit_status : Option ℤ → DaemonStatus
exit_status none = DaemonStatus.stopped
exit_status (some code) = ended_with code

-- What the tool's output says, if it names a state.
unfoldable pub parse_status : List ℕ → Option DaemonStatus
unfolding contains extract_exit_code
parse_status output =
    if contains (chars "\"state\": \"running\"") output
    then some DaemonStatus.running
    else if contains (chars "\"state\": \"ready\"") output
    then some starting
    else if contains (chars "\"state\": \"stopped\"") output
    then some paused
    else if contains (chars "\"state\": \"exited\"") output
    then some (exit_status (extract_exit_code output))
    else none

unfoldable pub local_status : Option ProcessInfo → DaemonStatus
local_status none = DaemonStatus.stopped
local_status (some info) = elim info.state [
  | ready ↦ DaemonStatus.running
  | ProcessState.running ↦ DaemonStatus.running
  | waiting ↦ DaemonStatus.running
  | ProcessState.stopped ↦ paused
  | exited code ↦ ended_with code
  | killed sig ↦ failed (signal sig)
]

-- What a signal makes of a process in the local table.
unfoldable pub after : Signal → ProcessState → ProcessState
after kill s = killed (pos 9)
after term s = exited (pos 0)
after stop s = ProcessState.stopped
after cont ProcessState.stopped = ProcessState.running
after _ s = s

abbrev pub modify :
    ℕ → (ProcessInfo → ProcessInfo) → List (ℕ × ProcessInfo) → List (ℕ × ProcessInfo)
unfolding lookup insert
modify key f m = elim (lookup key m) [ none ↦ m | some info ↦ insert key (f info) m ]

abbrev pub process_line : List (List ℕ) → List (ℕ × List ℕ) → List (ℕ × List ℕ)
process_line (number ∷ name ∷ more) rest = elim (parse u32_mod number) [
  | none ↦ rest
  | some p ↦ (p, name) ∷ rest
]
process_line _ rest = rest

unfoldable pub process_lines : List (List ℕ) → List (ℕ × List ℕ)
unfolding split_whitespace parse
process_lines [] = []
process_lines (line ∷ rest) = process_line (split_whitespace line) (process_lines rest)
