-- ===== src/Policy/CircuitBreaker/Refinement.antt =====
-- The three-state circuit that the breaker implements: what a client can know of it, with the
-- counters of the other states forgotten (circuit_breaker.rs).
use duende.Prelude.{
  ℕ, ◌+◌, ◌-◌, ◌≡◌, refl, ◌∙◌, List, [], ◌∷◌, Option, none, some, arith, leb, if◌then◌else◌, ltb,
}
use duende.Policy.CircuitBreaker.{
  CircuitState, closed, open_state, half_open, CircuitBreaker, maybe_transition, read_state, allow,
  record_success, record_failure, reset,
}
use duende.Policy.CircuitBreaker.Invariant.{
  Call, reads_state, allows, succeeds, fails, resets, step, run, IsValid, step-IsValid,
}

-- Closed after some failures in a row, open since a time, or half-open after some successes.
pub data Circuit : Type 0 where
  passing : ℕ → Circuit
  blocking : ℕ → Circuit
  probing : ℕ → Circuit

abbrev pub wake : ℕ → ℕ → Circuit → Circuit
wake timeout now (blocking since) = if ltb (now - since) timeout then blocking since else probing 0
wake timeout now c = c

-- The specification: `threshold` failures in a row block, `timeout` later a query lets probes
-- through, three successes close and one failure blocks again.
unfoldable pub spec_step : ℕ → ℕ → Circuit → ℕ × Call → Circuit
spec_step threshold timeout c (now, reads_state) = wake timeout now c
spec_step threshold timeout c (now, allows) = wake timeout now c
spec_step threshold timeout (passing n) (now, succeeds) = passing 0
spec_step threshold timeout (probing n) (now, succeeds) =
    if leb 2 n then passing 0 else probing (n + 1)
spec_step threshold timeout (blocking t) (now, succeeds) = blocking t
spec_step threshold timeout (passing n) (now, fails) =
    if ltb (n + 1) threshold then passing (n + 1) else blocking now
spec_step threshold timeout (probing n) (now, fails) = blocking now
spec_step threshold timeout (blocking t) (now, fails) = blocking t
spec_step threshold timeout c (now, resets) = passing 0

unfoldable pub spec_run : ℕ → ℕ → Circuit → List (ℕ × Call) → Circuit
spec_run threshold timeout c [] = c
spec_run threshold timeout c (e ∷ es) =
    spec_run threshold timeout (spec_step threshold timeout c e) es

abbrev time_of : Option ℕ → ℕ
time_of none = 0
time_of (some t) = t

view_in : CircuitState → CircuitBreaker → Circuit
view_in closed b = passing b.failure_count
view_in open_state b = blocking (time_of b.opened_at)
view_in half_open b = probing b.success_count

unfoldable pub view : CircuitBreaker → Circuit
unfolding view_in
view b = view_in b.state b

view-maybe_transition :
    (now : ℕ) (b : CircuitBreaker)
    → IsValid b
    → view (maybe_transition now b) ≡ wake b.recovery_timeout now (view b)
unfolding view maybe_transition
view-maybe_transition now b v = ground arith

view-step :
    (b : CircuitBreaker) (e : ℕ × Call)
    → IsValid b
    → view (step b e) ≡ spec_step b.failure_threshold b.recovery_timeout (view b) e
unfolding step spec_step
view-step b (now, reads_state) v = unfold read_state in view-maybe_transition now b v
view-step b (now, allows) v = unfold allow in view-maybe_transition now b v
view-step b (now, succeeds) v = unfold record_success view in ground arith
view-step b (now, fails) v = unfold record_failure view in ground arith
view-step b (now, resets) v = unfold reset view in ground arith

step_keeps :
    (b : CircuitBreaker) (e : ℕ × Call)
    → ((step b e).failure_threshold ≡ b.failure_threshold)
      × ((step b e).recovery_timeout ≡ b.recovery_timeout)
unfolding step
step_keeps b (now, reads_state) = unfold read_state in ground arith
step_keeps b (now, allows) = unfold allow in ground arith
step_keeps b (now, succeeds) = unfold record_success in ground arith
step_keeps b (now, fails) = unfold record_failure in ground arith
step_keeps b (now, resets) = unfold reset in ground arith

-- From a valid breaker, any sequence of calls at any times leads the circuit that it stands for
-- through the states that the specification gives, with the breaker's own threshold and timeout.
pub view-run :
    (b : CircuitBreaker) (es : List (ℕ × Call))
    → IsValid b
    → view (run b es) ≡ spec_run b.failure_threshold b.recovery_timeout (view b) es
unfolding run spec_run
view-run b [] v = refl
view-run b (e ∷ es) v =
    let (n, t) = step_keeps b e in
    view-run (step b e) es (step-IsValid b e v) ∙ simp (n, t, view-step b e v)
