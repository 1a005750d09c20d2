-- ===== src/Core/Adapters/Wos/Operations.antt =====
-- The adapter's operations (core's adapters/wos.rs). The counter `NEXT_PID` stands in the adapter's
-- state.
use duende.Prelude.{
  ℕ, ◌+◌, Bool, true, false, Option, none, some, String, List, [], ◌∷◌, drop, ltb, leb, ◌==◌,
  if◌then◌else◌, wrap32,
}
use duende.Prelude.Map.{lookup, insert}
use duende.Prelude.Text.{chars, lines_from}
use duende.Prelude.Decimal.{to_string}
use duende.Core.Types.{DaemonId, DaemonStatus, stopped, Signal}
use duende.Core.Adapter.{
  PlatformError, PlatformResult, err, ok, spawn_failed, signal_failed, status_failed, tracer_failed,
  config, Message, text, with_code, with_text, DaemonHandle, wos_handle, pid, TracerHandle,
  simulated,
}
use duende.Core.Adapters.Tool.{
  Call, not_run, finished, Tool, success, succeeded, checked, done_with,
}
use duende.Core.Adapters.Wos.{
  ProcessInfo, ProcessState, signal_number, after, modify, parse_status, local_status,
  process_lines,
}

-- The calls of the tool.
abbrev wos_ctl : List ℕ
wos_ctl = chars "wos-ctl"

abbrev pub version_args : List (List ℕ)
version_args = wos_ctl ∷ chars "--version" ∷ []

abbrev pub spawn_args : List ℕ → ℕ → ℕ → List (List ℕ)
spawn_args name priority p =
    wos_ctl
    ∷ chars "spawn"
    ∷ chars "--name"
    ∷ name
    ∷ chars "--priority"
    ∷ to_string priority
    ∷ chars "--pid"
    ∷ to_string p
    ∷ []

abbrev pub signal_args : ℕ → Signal → List (List ℕ)
unfolding signal_number
signal_args p sig =
    wos_ctl
    ∷ chars "signal"
    ∷ chars "--pid"
    ∷ to_string p
    ∷ chars "--signal"
    ∷ to_string (signal_number sig)
    ∷ []

abbrev pub status_args : ℕ → List (List ℕ)
status_args p = wos_ctl ∷ chars "status" ∷ chars "--pid" ∷ to_string p ∷ chars "--json" ∷ []

abbrev pub renice_args : ℕ → ℕ → List (List ℕ)
renice_args p priority =
    wos_ctl
    ∷ chars "renice"
    ∷ chars "--pid"
    ∷ to_string p
    ∷ chars "--priority"
    ∷ to_string priority
    ∷ []

abbrev pub ps_args : List (List ℕ)
ps_args = wos_ctl ∷ chars "ps" ∷ chars "--format" ∷ chars "pid,name" ∷ []

abbrev pub no_handle : PlatformError
no_handle = spawn_failed (text "Invalid handle type for WOS adapter")

module _ (t : Tool) where
  pub record WosAdapter : Type 0 where
    pub default_priority : ℕ
    pub processes : List (ℕ × ProcessInfo)
    pub next_pid : ℕ
    pub tool : t.State

  -- `new`; `with_priority` panics above 7, which `none` stands for.
  abbrev pub new : ℕ → t.State → WosAdapter
  new next s = record { default_priority = 4; processes = []; next_pid = next; tool = s }

  abbrev pub with_priority : ℕ → ℕ → t.State → Option WosAdapter
  with_priority priority next s =
      if leb priority 7 then some record (new next s) { default_priority = priority } else none

  abbrev pub wos_ctl_available : t.State → Bool × t.State
  wos_ctl_available s = (succeeded (t.run version_args s).0, (t.run version_args s).1)

  -- A call whose output is not read.
  abbrev pub answer_of : (Message → PlatformError) → String → Call → PlatformResult (Unit {0})
  answer_of failure title call = done_with tt (
      checked (λ code. failure (with_code "Failed to execute wos-ctl: " code))
        (λ error. failure (with_text title error)) call)

  -- The call is made if the tool is there.
  abbrev pub if_available :
      (Message → PlatformError)
      → String
      → List (List ℕ)
      → t.State
      → PlatformResult (Unit {0}) × t.State
  if_available failure title args s =
      let s' = (wos_ctl_available s).1 in
      if (wos_ctl_available s).0
      then (answer_of failure title (t.run args s').0, (t.run args s').1)
      else (ok tt, s')

  -- The table changes only behind a call that has not failed.
  abbrev pub commit :
      {R : Type 0}
      → WosAdapter
      → R
      → List (ℕ × ProcessInfo)
      → PlatformResult (Unit {0}) × t.State
      → PlatformResult R × WosAdapter
  commit a r m (err e, s) = (err e, record a { tool = s })
  commit a r m (ok u, s) = (ok r, record a { tool = s; processes = m })

  abbrev pub spawn_info : WosAdapter → List ℕ → ProcessInfo
  spawn_info a name = record {
    pid = a.next_pid;
    parent_pid = 1;
    name = name;
    priority = a.default_priority;
    state = ProcessState.running;
  }

  abbrev pub spawn_there : DaemonId → List ℕ → WosAdapter → PlatformResult DaemonHandle × WosAdapter
  unfolding insert
  spawn_there id name a =
      commit (record a { next_pid = wrap32 (a.next_pid + 1) }) (wos_handle id a.next_pid)
        (insert a.next_pid (spawn_info a name) a.processes)
        (if_available spawn_failed "wos-ctl spawn failed: "
          (spawn_args name a.default_priority a.next_pid) a.tool)

  -- `inside` is whether the program runs in WOS.
  unfoldable pub spawn :
      Bool → DaemonId → List ℕ → WosAdapter → PlatformResult DaemonHandle × WosAdapter
  unfolding spawn_there
  spawn true id name a = spawn_there id name a
  spawn false id name a =
      let b = record a { tool = (wos_ctl_available a.tool).1 } in
      if (wos_ctl_available a.tool).0
      then spawn_there id name b
      else (err (spawn_failed (text "WOS environment not detected and wos-ctl not found")), b)

  unfoldable pub send_signal :
      DaemonHandle → Signal → WosAdapter → PlatformResult (Unit {0}) × WosAdapter
  unfolding modify after signal_args
  send_signal h sig a = elim (pid h) [
    | none ↦ (err no_handle, a)
    | some p ↦
        commit a tt (modify p (λ info. record info { state = after sig info.state }) a.processes)
          (if_available signal_failed "wos-ctl signal failed: " (signal_args p sig) a.tool)
  ]

  -- The tool's answer is final unless it names no state.
  abbrev pub tool_status : DaemonStatus → Call → PlatformResult DaemonStatus
  unfolding parse_status
  tool_status known (not_run code) =
      err (status_failed (with_code "Failed to execute wos-ctl: " code))
  tool_status known (finished code out error) =
      let answer : DaemonStatus = elim (parse_status out) [ none ↦ known | some said ↦ said ] in
      ok (if success code then answer else stopped)

  unfoldable pub status : DaemonHandle → WosAdapter → PlatformResult DaemonStatus × WosAdapter
  unfolding tool_status local_status lookup
  status h a = elim (pid h) [
    | none ↦ (err no_handle, a)
    | some p ↦
        let known = local_status (lookup p a.processes) in
        let s = (wos_ctl_available a.tool).1 in
        if (wos_ctl_available a.tool).0
        then (
          tool_status known (t.run (status_args p) s).0,
          record a { tool = (t.run (status_args p) s).1 },
        )
        else (ok known, record a { tool = s })
  ]

  unfoldable pub attach_tracer : DaemonHandle → PlatformResult TracerHandle
  attach_tracer h = elim (pid h) [
    | none ↦ err no_handle
    | some p ↦
        if p == 0
        then err (tracer_failed (text "Process not running"))
        else ok record { daemon_id = h.id; tracer_type = simulated }
  ]

  abbrev pub names : List (ℕ × ProcessInfo) → List (ℕ × List ℕ)
  names [] = []
  names ((p, info) ∷ rest) = (p, info.name) ∷ names rest

  abbrev pub listed : List (ℕ × List ℕ) → Call → PlatformResult (List (ℕ × List ℕ))
  unfolding process_lines lines_from
  listed known (not_run code) = err (spawn_failed (with_code "Failed to execute wos-ctl: " code))
  listed known (finished code out error) =
      ok (if success code then process_lines (drop 1 (lines_from [] out)) else known)

  unfoldable pub list_processes : WosAdapter → PlatformResult (List (ℕ × List ℕ)) × WosAdapter
  unfolding listed
  list_processes a =
      let s = (wos_ctl_available a.tool).1 in
      if (wos_ctl_available a.tool).0
      then (listed (names a.processes) (t.run ps_args s).0, record a { tool = (t.run ps_args s).1 })
      else (ok (names a.processes), record a { tool = s })

  unfoldable pub set_priority : ℕ → ℕ → WosAdapter → PlatformResult (Unit {0}) × WosAdapter
  unfolding modify
  set_priority p priority a =
      if ltb 7 priority
      then (err (config (text "Priority must be 0-7")), a)
      else commit a tt (modify p (λ info. record info { priority = priority }) a.processes)
          (if_available spawn_failed "wos-ctl renice failed: " (renice_args p priority) a.tool)
