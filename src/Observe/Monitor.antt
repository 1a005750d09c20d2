-- ===== src/Observe/Monitor.antt =====
-- crates/duende-observe/src/monitor.rs: the collector of process metrics on Linux, with its history.
-- The clock and what the files under /proc hold are arguments, and so is the arithmetic of `f64`,
-- on which nothing is assumed.
pub mod History
use duende.Prelude.{
  ℕ, ◌+◌, ◌-◌, Bool, true, false, Option, none, some, List, [], ◌∷◌, ◌++◌, ltb, leb, if◌then◌else◌,
  length, drop, filter, wrap64,
}
use duende.Observe.Proc.{
  ProcessState, ProcStat, Result, ok, err, panics, parse_proc_stat, parse_proc_statm, parse_proc_io,
}

-- `now - wall_time` is the time elapsed.
pub record CpuMeasurement : Type 0 where
  pub utime : ℕ
  pub stime : ℕ
  pub wall_time : ℕ

-- The arithmetic of `f64` that the collector uses.
pub record Arithmetic : Type 1 where
  pub Carrier : Type 0
  pub of_u64 : ℕ → Carrier
  pub as_secs_f64 : ℕ → Carrier
  pub milli : Carrier
  pub lt : Carrier → Carrier → Bool
  pub div : Carrier → Carrier → Carrier
  pub mul : Carrier → Carrier → Carrier
  pub maximum : Carrier → Carrier → Carrier
  pub clk_tck : Carrier

pub record DaemonSnapshot (F : Type 0) : Type 0 where
  pub timestamp : ℕ
  pub pid : ℕ  -- u32
  pub cpu_percent : F
  pub memory_bytes : ℕ  -- u64
  pub memory_percent : F
  pub threads : ℕ  -- u32
  pub state : ProcessState
  pub io_read_bytes : ℕ  -- u64
  pub io_write_bytes : ℕ  -- u64
  pub gpu_utilization : Option F
  pub gpu_memory : Option ℕ  -- u64

pub record DaemonMonitor (F : Type 0) : Type 0 where
  pub capacity : ℕ  -- usize
  pub history : List (DaemonSnapshot F)
  pub prev_cpu : Option CpuMeasurement
  pub page_size : ℕ  -- u64
  pub total_memory : ℕ  -- u64

-- The page size and the total memory that the system reports are arguments.
unfoldable pub new : {F : Type 0} → ℕ → ℕ → ℕ → DaemonMonitor F
new page_size total_memory capacity = record {
  capacity = capacity;
  history = [];
  prev_cpu = none;
  page_size = page_size;
  total_memory = total_memory;
}

module _ (a : Arithmetic) where
  -- The ticks of a process since the last measurement, as a percentage; 0 without a measurement, at
  -- once after it, or if the counter went back.
  unfoldable pub calculate_cpu_percent : ProcStat → ℕ → DaemonMonitor a.Carrier → a.Carrier
  calculate_cpu_percent stat now m = elim m.prev_cpu [
    | none ↦ a.of_u64 0
    | some prev ↦
        let elapsed = a.as_secs_f64 (now - prev.wall_time) in
        let ticks_now = wrap64 (stat.utime + stat.stime) in
        let ticks_prev = wrap64 (prev.utime + prev.stime) in
        let cpu_seconds = a.div (a.of_u64 (ticks_now - ticks_prev)) a.clk_tck in
        if a.lt elapsed a.milli
        then a.of_u64 0
        else if ltb ticks_now ticks_prev
        then a.of_u64 0
        else a.maximum (a.mul (a.div cpu_seconds elapsed) (a.of_u64 100)) (a.of_u64 0)
  ]

  unfoldable pub memory_percent : ℕ → ℕ → a.Carrier
  memory_percent bytes total =
      if ltb 0 total
      then a.mul (a.div (a.of_u64 bytes) (a.of_u64 total)) (a.of_u64 100)
      else a.of_u64 0

  -- `unwrap_or((0, 0))`.
  abbrev io_or_zero : Result (ℕ × ℕ) → ℕ × ℕ
  io_or_zero (ok totals) = totals
  io_or_zero _ = (0, 0)

  -- What the three files hold when the process is read, and the time.
  pub record Reading : Type 0 where
    pub now : ℕ
    pub pid : ℕ
    pub stat : Result (List ℕ)
    pub statm : Result (List ℕ)
    pub io : Result (List ℕ)

  abbrev measured : Reading → ProcStat → DaemonMonitor a.Carrier → DaemonMonitor a.Carrier
  measured r stat m = record m {
    prev_cpu = some (record { utime = stat.utime; stime = stat.stime; wall_time = r.now });
  }

  abbrev snapshot : Reading → ProcStat → ℕ → DaemonMonitor a.Carrier → DaemonSnapshot a.Carrier
  unfolding calculate_cpu_percent memory_percent parse_proc_io
  snapshot r stat bytes m =
      let (reads, writes) = io_or_zero (parse_proc_io r.io) in
      record {
        timestamp = r.now;
        pid = r.pid;
        cpu_percent = calculate_cpu_percent stat r.now m;
        memory_bytes = bytes;
        memory_percent = memory_percent bytes m.total_memory;
        threads = stat.num_threads;
        state = stat.state;
        io_read_bytes = reads;
        io_write_bytes = writes;
        gpu_utilization = none;
        gpu_memory = none;
      }

  -- The measurement is kept even if the memory cannot be read.
  unfoldable pub collect_linux :
      Reading
      → DaemonMonitor a.Carrier
      → Result (DaemonSnapshot a.Carrier) × DaemonMonitor a.Carrier
  unfolding snapshot parse_proc_stat parse_proc_statm
  collect_linux r m = elim (parse_proc_stat r.pid r.stat) [
    | err e ↦ (err e, m)
    | panics ↦ (panics, m)
    | ok stat ↦ elim (parse_proc_statm m.page_size r.statm) [
      | err e ↦ (err e, measured r stat m)
      | panics ↦ (panics, measured r stat m)
      | ok bytes ↦ (ok (snapshot r stat bytes m), measured r stat m)
    ]
  ]

-- `pop_front` when the buffer is full, then `push_back`.
unfoldable pub store :
    {F : Type 0} → ℕ → DaemonSnapshot F → List (DaemonSnapshot F) → List (DaemonSnapshot F)
store capacity s history =
    (if leb capacity (length history) then drop 1 history else history) ++ (s ∷ [])

abbrev pub kept :
    {F : Type 0}
    → Result (DaemonSnapshot F) × DaemonMonitor F
    → Result (DaemonSnapshot F) × DaemonMonitor F
kept (err e, m) = (err e, m)
kept (panics, m) = (panics, m)
kept (ok s, m) = (ok s, record m { history = store m.capacity s m.history })

unfoldable pub collect :
    (a : Arithmetic)
    → Reading a
    → DaemonMonitor a.Carrier
    → Result (DaemonSnapshot a.Carrier) × DaemonMonitor a.Carrier
unfolding collect_linux store
collect a r m = kept (collect_linux a r m)

-- `checked_sub`: without a time so long ago, all snapshots.
unfoldable pub history : {F : Type 0} → ℕ → ℕ → DaemonMonitor F → List (DaemonSnapshot F)
history now duration m =
    if leb duration now then filter (λ s. leb (now - duration) s.timestamp) m.history else m.history

unfoldable pub clear_history : {F : Type 0} → DaemonMonitor F → DaemonMonitor F
clear_history m = record m { history = []; prev_cpu = none }
