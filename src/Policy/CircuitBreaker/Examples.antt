-- ===== src/Policy/CircuitBreaker/Examples.antt =====
-- Tests of the breaker, and its theorems at concrete inputs (circuit_breaker.rs).
use duende.Prelude.{ℕ, ◌≡◌, refl, true, false, List, [], ◌∷◌, some, arith}
use duende.Policy.CircuitBreaker.{
  CircuitBreaker, closed, open_state, half_open, new, allow, record_success, record_failure,
}
use duende.Policy.CircuitBreaker.Invariant.{
  Call, allows, succeeds, fails, step, run, IsValid, new-IsValid, run-new-IsValid,
}
use duende.Policy.CircuitBreaker.Refinement.{passing, view, spec_run, view-run}
use duende.Policy.CircuitBreaker.History.{run-blocks, allow-recovers}

abbrev outage : List (ℕ × Call)
outage =
    (1, fails)
    ∷ (2, fails)
    ∷ (3, allows)
    ∷ (40, allows)
    ∷ (41, succeeds)
    ∷ (42, succeeds)
    ∷ (43, succeeds)
    ∷ []

outage_recovers : (run (new 2 30) outage).state ≡ closed
unfolding run step new allow record_success record_failure
outage_recovers = refl

abbrev broken : CircuitBreaker
broken = record {
  state = open_state;
  failure_threshold = 2;
  failure_count = 2;
  success_count = 0;
  recovery_timeout = 30;
  opened_at = some 5;
}

abbrev testing : CircuitBreaker
testing = record broken { state = half_open; success_count = 2 }

run-new-IsValid_example : IsValid (run (new 2 30) outage)
run-new-IsValid_example = run-new-IsValid 2 30 outage (omega arith)

view-run_example : view (run (new 2 30) outage) ≡ spec_run 2 30 (passing 0) outage
unfolding new view
view-run_example = view-run (new 2 30) outage (new-IsValid 2 30 (omega arith))

run-blocks_example :
    (run broken ((6, allows) ∷ (9, succeeds) ∷ []) ≡ broken)
    × ((allow 34 (run broken ((6, allows) ∷ (9, succeeds) ∷ []))).1 ≡ false)
run-blocks_example =
    run-blocks broken 5 34 ((6, allows) ∷ (9, succeeds) ∷ []) refl refl
      ((omega arith, λ e. cc), ((omega arith, λ e. cc), tt)) (omega arith) (omega arith)

allow-recovers_example : (allow 35 broken).1 ≡ true
allow-recovers_example = (allow-recovers broken 5 35 50 refl refl (omega arith)).0

testing-IsValid : IsValid testing
testing-IsValid = ground arith
