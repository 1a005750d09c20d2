-- ===== src/Core/Metrics/Examples.antt =====
-- Two threads record 5 and 9 microseconds, and the first overtakes the second (metrics.rs).
use duende.Prelude.{ℕ, ◌≡◌, refl, Bool, true, false, List, [], ◌∷◌, All, arith}
use duende.Core.Metrics.{new, advance}
use duende.Core.Metrics.Threads.{starts, step_at, run, IsDone}
use duende.Core.Metrics.Laws.{record_duration-run}

abbrev durations : List ℕ
durations = 5000 ∷ 9000 ∷ []

abbrev schedule : List (ℕ × Bool)
schedule =
    (1, false)
    ∷ (1, false)
    ∷ (1, false)
    ∷ (1, false)
    ∷ (0, false)
    ∷ (0, false)
    ∷ (0, false)
    ∷ (0, false)
    ∷ (0, true)
    ∷ (0, false)
    ∷ (0, false)
    ∷ (1, false)
    ∷ (1, false)
    ∷ (1, false)
    ∷ []

schedule_ends : All IsDone (run schedule (starts durations, new)).0
unfolding run starts step_at advance new
schedule_ends = (refl, (refl, tt))

record_duration-run_example :
    ((run schedule (starts durations, new)).1.duration_max_us ≡ 9)
    × ((run schedule (starts durations, new)).1.duration_sum_us ≡ 14)
    × ((run schedule (starts durations, new)).1.duration_count ≡ 2)
unfolding new
record_duration-run_example =
    record_duration-run schedule durations new (omega arith) (omega arith) schedule_ends
