-- ===== src/Core/Metrics/Threads.antt =====
-- Threads that record durations at once, in any order of their atomic steps (metrics.rs).
use duende.Prelude.{ℕ, zero, suc, ◌+◌, ◌≤◌, ◌<◌, ◌≡◌, Bool, List, [], ◌∷◌, ltb, if◌then◌else◌}
use duende.Core.Metrics.{
  DaemonMetrics, Point, adds_sum, adds_count, loads, tests, exchanges, done, advance, micros,
  record_duration,
}

abbrev pub larger : ℕ → ℕ → ℕ
larger a b = if ltb a b then b else a

-- The thread of a list that a number names takes a step; a number beyond them does nothing.
unfoldable pub step_at : ℕ → Bool → List Point → DaemonMetrics → List Point × DaemonMetrics
step_at i spurious [] m = ([], m)
step_at zero spurious (p ∷ ps) m = let (p', m') = advance spurious p m in (p' ∷ ps, m')
step_at (suc i) spurious (p ∷ ps) m = let (ps', m') = step_at i spurious ps m in (p ∷ ps', m')

-- Which thread steps, and whether a weak exchange of it then fails without cause.
unfoldable pub run : List (ℕ × Bool) → List Point × DaemonMetrics → List Point × DaemonMetrics
run [] st = st
run ((i, spurious) ∷ rest) (ps, m) = run rest (step_at i spurious ps m)

-- What a thread has still to add to the sum and to the count, and to raise the maximum to.
abbrev pub due_sum : Point → ℕ
due_sum (adds_sum us) = us
due_sum _ = 0

abbrev pub due_count : Point → ℕ
due_count (adds_sum us) = 1
due_count (adds_count us) = 1
due_count _ = 0

abbrev pub due_max : Point → ℕ
due_max (adds_sum us) = us
due_max (adds_count us) = us
due_max (loads us) = us
due_max (tests us seen) = us
due_max (exchanges us seen) = us
due_max done = 0

abbrev pub total : (Point → ℕ) → List Point → ℕ
total due [] = 0
total due (p ∷ ps) = due p + total due ps

abbrev pub highest : (Point → ℕ) → List Point → ℕ
highest due [] = 0
highest due (p ∷ ps) = larger (due p) (highest due ps)

-- The value that a thread has seen is not above the maximum.
abbrev pub Fits : ℕ → Point → Type 0
Fits top (tests us seen) = seen ≤ top
Fits top (exchanges us seen) = (seen ≤ top) × (seen < us)
Fits top _ = Unit {0}

-- The durations in nanoseconds, in microseconds, and their sum and maximum.
abbrev pub sum_of : List ℕ → ℕ
sum_of [] = 0
sum_of (d ∷ ds) = micros d + sum_of ds

abbrev pub max_of : List ℕ → ℕ
max_of [] = 0
max_of (d ∷ ds) = larger (micros d) (max_of ds)

unfoldable pub starts : List ℕ → List Point
unfolding record_duration
starts [] = []
starts (d ∷ ds) = record_duration d ∷ starts ds

abbrev pub IsDone : Point → Type 0
IsDone p = p ≡ done
