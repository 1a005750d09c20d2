-- ===== src/Core/Metrics.antt =====
-- crates/duende-core/src/metrics.rs: the counters of a daemon, shared by its threads. Each access of
-- an atomic is one step; the start time and the rates, which are quotients of `f64`, are left out.
pub mod Threads
pub mod Laws
mod Examples
use duende.Prelude.{ℕ, ◌+◌, ◌/◌, ◌%◌, ◌*◌, Bool, true, false, ltb, if◌then◌else◌, wrap64, ◌==◌}

-- The atomics, each a 64-bit number.
pub record DaemonMetrics : Type 0 where
  pub requests_total : ℕ
  pub errors_total : ℕ
  pub duration_sum_us : ℕ
  pub duration_count : ℕ
  pub duration_max_us : ℕ
  pub cpu_usage_permille : ℕ
  pub memory_bytes : ℕ
  pub open_fds : ℕ
  pub thread_count : ℕ
  pub circuit_breaker_trips : ℕ
  pub successful_recoveries : ℕ

unfoldable pub new : DaemonMetrics
new = record {
  requests_total = 0;
  errors_total = 0;
  duration_sum_us = 0;
  duration_count = 0;
  duration_max_us = 0;
  cpu_usage_permille = 0;
  memory_bytes = 0;
  open_fds = 0;
  thread_count = 0;
  circuit_breaker_trips = 0;
  successful_recoveries = 0;
}

-- `fetch_add`, which wraps.
abbrev pub record_request : DaemonMetrics → DaemonMetrics
record_request m = record m { requests_total = wrap64 (m.requests_total + 1) }

abbrev pub record_error : DaemonMetrics → DaemonMetrics
record_error m = record m { errors_total = wrap64 (m.errors_total + 1) }

abbrev pub record_circuit_breaker_trip : DaemonMetrics → DaemonMetrics
record_circuit_breaker_trip m = record m {
  circuit_breaker_trips = wrap64 (m.circuit_breaker_trips + 1);
}

abbrev pub record_recovery : DaemonMetrics → DaemonMetrics
record_recovery m = record m { successful_recoveries = wrap64 (m.successful_recoveries + 1) }

abbrev pub set_memory_bytes : ℕ → DaemonMetrics → DaemonMetrics
set_memory_bytes bytes m = record m { memory_bytes = bytes }

abbrev pub set_open_fds : ℕ → DaemonMetrics → DaemonMetrics
set_open_fds count m = record m { open_fds = count }

abbrev pub set_thread_count : ℕ → DaemonMetrics → DaemonMetrics
set_thread_count count m = record m { thread_count = count }

-- `as_micros() as u64` of a duration in nanoseconds.
abbrev pub micros : ℕ → ℕ
micros duration = wrap64 (duration / 1000)

abbrev pub add_sum : ℕ → DaemonMetrics → DaemonMetrics
add_sum us m = record m { duration_sum_us = wrap64 (m.duration_sum_us + us) }

abbrev pub add_count : DaemonMetrics → DaemonMetrics
add_count m = record m { duration_count = wrap64 (m.duration_count + 1) }

-- Where a thread stands in `record_duration`, with its local values: the two additions, the load of
-- the maximum, the test of the loop with the maximum it has seen, and the exchange.
pub data Point : Type 0 where
  adds_sum adds_count loads : ℕ → Point
  tests exchanges : ℕ → ℕ → Point
  done : Point

unfoldable pub record_duration : ℕ → Point
record_duration duration = adds_sum (micros duration)

-- `compare_exchange_weak(seen, us)`; `spurious` if it fails though the value is the one seen.
abbrev pub exchange : Bool → ℕ → ℕ → DaemonMetrics → Point × DaemonMetrics
exchange spurious us seen m =
    if m.duration_max_us == seen
    then (if spurious
        then (tests us m.duration_max_us, m)
        else (done, record m { duration_max_us = us }))
    else (tests us m.duration_max_us, m)

-- The next step of a thread.
unfoldable pub advance : Bool → Point → DaemonMetrics → Point × DaemonMetrics
advance spurious (adds_sum us) m = (adds_count us, add_sum us m)
advance spurious (adds_count us) m = (loads us, add_count m)
advance spurious (loads us) m = (tests us m.duration_max_us, m)
advance spurious (tests us seen) m = (if ltb seen us then exchanges us seen else done, m)
advance spurious (exchanges us seen) m = exchange spurious us seen m
advance spurious done m = (done, m)

-- `duration_avg` and `duration_max`, in nanoseconds.
unfoldable pub duration_avg : DaemonMetrics → ℕ
duration_avg m = if ltb 0 m.duration_count then m.duration_sum_us / m.duration_count * 1000 else 0

unfoldable pub duration_max : DaemonMetrics → ℕ
duration_max m = m.duration_max_us * 1000
