-- ===== src/Policy/CircuitBreaker/Invariant.antt =====
-- What holds of a breaker between two calls, for every sequence of calls at any times
-- (circuit_breaker.rs).
use duende.Prelude.{ℕ, ◌<◌, ◌≡◌, ◌⊎◌, List, [], ◌∷◌, none, arith, u32_mod}
use duende.Policy.CircuitBreaker.{
  closed, open_state, half_open, CircuitBreaker, new, maybe_transition, read_state, allow,
  record_success, record_failure, reset,
}

-- A call of a public method that takes the shared breaker, without its time.
pub data Call : Type 0 where
  reads_state allows succeeds fails resets : Call

unfoldable pub step : CircuitBreaker → ℕ × Call → CircuitBreaker
step b (now, reads_state) = (read_state now b).0
step b (now, allows) = (allow now b).0
step b (now, succeeds) = record_success b
step b (now, fails) = record_failure now b
step b (now, resets) = reset b

unfoldable pub run : CircuitBreaker → List (ℕ × Call) → CircuitBreaker
run b [] = b
run b (c ∷ cs) = run (step b c) cs

-- The counters stay below their thresholds while they count, so no atomic wraps; an opening time
-- is kept exactly while the circuit is not closed.
pub record IsValid (b : CircuitBreaker) : Type 0 where
  pub threshold_u32 : b.failure_threshold < u32_mod
  pub closed_below :
      b.state ≡ closed → (b.failure_count ≡ 0) ⊎ (b.failure_count < b.failure_threshold)
  pub closed_clean : b.state ≡ closed → (b.success_count ≡ 0) × (b.opened_at ≡ none)
  pub open_clean : b.state ≡ open_state → b.success_count ≡ 0
  pub probing : b.state ≡ half_open → b.success_count < 3
  pub opened : b.opened_at ≡ none → b.state ≡ closed

pub new-IsValid : (n timeout : ℕ) → n < u32_mod → IsValid (new n timeout)
unfolding new
new-IsValid n timeout h = ground arith

maybe_transition-IsValid :
    (now : ℕ) (b : CircuitBreaker) → IsValid b → IsValid (maybe_transition now b)
unfolding maybe_transition
maybe_transition-IsValid now b v = ground arith

-- Every call, in every state and at any time, keeps the breaker valid.
pub step-IsValid : (b : CircuitBreaker) (c : ℕ × Call) → IsValid b → IsValid (step b c)
unfolding step
step-IsValid b (now, reads_state) v = unfold read_state in maybe_transition-IsValid now b v
step-IsValid b (now, allows) v = unfold allow in maybe_transition-IsValid now b v
step-IsValid b (now, succeeds) v = unfold record_success in ground arith
step-IsValid b (now, fails) v = unfold record_failure in ground arith
step-IsValid b (now, resets) v = unfold reset in ground arith

run-IsValid : (b : CircuitBreaker) (cs : List (ℕ × Call)) → IsValid b → IsValid (run b cs)
unfolding run
run-IsValid b [] v = v
run-IsValid b (c ∷ cs) v = run-IsValid (step b c) cs (step-IsValid b c v)

-- A breaker made by `new` with a 32-bit threshold satisfies the invariant after any sequence of
-- calls at any times: a closed circuit has counted no failure or fewer than the threshold, has no
-- success counted and no opening time; an open one has no success counted; a half-open one has
-- counted fewer than three; and only a closed one lacks an opening time.
pub run-new-IsValid :
    (n timeout : ℕ) (cs : List (ℕ × Call)) → n < u32_mod → IsValid (run (new n timeout) cs)
run-new-IsValid n timeout cs h = run-IsValid (new n timeout) cs (new-IsValid n timeout h)
