-- ===== src/Observe/Tracer.antt =====
-- crates/duende-observe/src/tracer.rs, as compiled for Linux: what /proc shows of a daemon's system
-- calls. The contents of the files and the clock are arguments, and a set of counts is a list in the
-- map's order.
pub mod Syscalls
pub mod Patterns
pub mod Counting
pub mod Ranking
mod Examples
use duende.Prelude.{
  ℕ, zero, suc, ◌+◌, ◌-◌, ◌*◌, Bool, true, false, ◌&&◌, ◌||◌, not, Option, none, some, List, [],
  ◌∷◌, ◌++◌, String, length, take, map, ltb, leb, ◌==◌, if◌then◌else◌,
}
use duende.Prelude.Float.{F64}
use duende.Prelude.Text.{chars, trim, same_text}
use duende.Prelude.Decimal.{to_string}
use duende.Observe.Tracer.Patterns.{
  AnomalyKind, Anomaly, AntiPattern, Arithmetic, count_of, total, std_dev, z_score_of, scored,
  detect_anti_patterns,
}
use duende.Observe.Tracer.Syscalls.{read_current_syscall}

pub record TraceEvent : Type 0 where
  pub syscall : List ℕ
  pub duration_us : ℕ
  pub source_location : Option (List ℕ)

pub record TraceReport (F : Type 0) : Type 0 where
  pub pid : ℕ
  pub events : List TraceEvent
  pub anomalies : List (Anomaly F)
  pub critical_path : List (List ℕ)
  pub anti_patterns : List AntiPattern

pub record DaemonTracer (F : Type 0) : Type 0 where
  pub attached_pid : Option ℕ
  pub syscall_counts : List (List ℕ × ℕ)
  pub sample_count : ℕ
  pub start_time : Option ℕ
  pub anomaly_threshold : F

-- `entry(name).or_insert(0) += 1`.
unfoldable pub bump : List ℕ → List (List ℕ × ℕ) → List (List ℕ × ℕ)
bump name [] = (name, 1) ∷ []
bump name ((key, n) ∷ rest) =
    let others = bump name rest in
    if same_text key name then (key, n + 1) ∷ rest else (key, n) ∷ others

-- A stable sort, the largest counts first.
unfoldable pub insert_entry : List ℕ × ℕ → List (List ℕ × ℕ) → List (List ℕ × ℕ)
insert_entry e [] = e ∷ []
insert_entry e (f ∷ rest) =
    let later = f ∷ insert_entry e rest in if leb f.1 e.1 then e ∷ f ∷ rest else later

unfoldable pub sort_entries : List (List ℕ × ℕ) → List (List ℕ × ℕ)
unfolding insert_entry
sort_entries [] = []
sort_entries (e ∷ rest) = insert_entry e (sort_entries rest)

abbrev pub path_text : List ℕ × ℕ → List ℕ
path_text e = e.0 ++ (32 ∷ 40 ∷ (to_string e.1 ++ (41 ∷ [])))

unfoldable pub build_critical_path : List (List ℕ × ℕ) → List (List ℕ)
unfolding sort_entries
build_critical_path counts = map path_text (take 5 (sort_entries counts))

module _ (a : Arithmetic) where
  open a use {f64, thousandths}
  open f64 use {Carrier, of_nat, lt}

  abbrev pub with_anomaly_threshold : Carrier → DaemonTracer Carrier
  with_anomaly_threshold threshold = record {
    attached_pid = none;
    syscall_counts = [];
    sample_count = 0;
    start_time = none;
    anomaly_threshold = threshold;
  }

  abbrev pub new : DaemonTracer Carrier
  new = with_anomaly_threshold (of_nat 2)

  -- `found` is whether the process has a file /proc/{pid}/stat; `false` is the error.
  abbrev pub attach : Bool → ℕ → ℕ → DaemonTracer Carrier → Bool × DaemonTracer Carrier
  attach found pid now t =
      if found
      then (
        true,
        record t {
          attached_pid = some pid;
          syscall_counts = [];
          sample_count = 0;
          start_time = some now;
        },
      )
      else (false, t)

  abbrev pub detach : DaemonTracer Carrier → DaemonTracer Carrier
  detach t = record t {
    attached_pid = none;
    syscall_counts = [];
    sample_count = 0;
    start_time = none;
  }

  unfoldable pub detect_frequency_anomaly : DaemonTracer Carrier → List ℕ → Option (Anomaly Carrier)
  unfolding total count_of
  detect_frequency_anomaly t syscall =
      if ltb t.sample_count 10
      then none
      else if total t.syscall_counts == 0
      then none
      else if lt (std_dev a t.syscall_counts) (thousandths 1)
      then none
      else scored a t.anomaly_threshold
          (z_score_of a t.syscall_counts (count_of syscall t.syscall_counts)) syscall
          (count_of syscall t.syscall_counts)

  abbrev pub event : List ℕ → TraceEvent
  event syscall = record { syscall = syscall; duration_us = 0; source_location = none }

  abbrev pub wchan_events : Option (List ℕ) → List TraceEvent
  wchan_events none = []
  wchan_events (some content) =
      let wchan = trim content in
      if same_text wchan [] || same_text wchan (48 ∷ [])
      then []
      else event (chars "wchan:" ++ wchan) ∷ []

  abbrev pub anomaly_list : Option (Anomaly Carrier) → List (Anomaly Carrier)
  anomaly_list none = []
  anomaly_list (some anomaly) = anomaly ∷ []

  -- The tracer after a name was read.
  abbrev pub sampled : List ℕ → DaemonTracer Carrier → DaemonTracer Carrier
  unfolding bump
  sampled name t = record t {
    syscall_counts = bump name t.syscall_counts;
    sample_count = t.sample_count + 1;
  }

  abbrev pub reported :
      ℕ
      → List TraceEvent
      → List (Anomaly Carrier)
      → DaemonTracer Carrier
      → TraceReport Carrier × DaemonTracer Carrier
  unfolding build_critical_path detect_anti_patterns
  reported pid events anomalies t = (
    record {
      pid = pid;
      events = events;
      anomalies = anomalies;
      critical_path = build_critical_path t.syscall_counts;
      anti_patterns = detect_anti_patterns a t.syscall_counts;
    },
    t,
  )

  -- The contents of /proc/{pid}/syscall and of /proc/{pid}/wchan, if they can be read.
  unfoldable pub collect_linux :
      ℕ
      → Option (List ℕ)
      → Option (List ℕ)
      → DaemonTracer Carrier
      → TraceReport Carrier × DaemonTracer Carrier
  unfolding read_current_syscall sampled reported detect_frequency_anomaly
  collect_linux pid syscall wchan t = elim (read_current_syscall syscall) [
    | none ↦ reported pid (wchan_events wchan) [] t
    | some name ↦
        reported pid (event name ∷ wchan_events wchan)
          (anomaly_list (detect_frequency_anomaly (sampled name t) name)) (sampled name t)
  ]

  -- `none` is the error that no daemon is attached.
  unfoldable pub collect :
      Option (List ℕ)
      → Option (List ℕ)
      → DaemonTracer Carrier
      → Option (TraceReport Carrier) × DaemonTracer Carrier
  unfolding collect_linux
  collect syscall wchan t = elim t.attached_pid [
    | none ↦ (none, t)
    | some pid ↦ (some (collect_linux pid syscall wchan t).0, (collect_linux pid syscall wchan t).1)
  ]
