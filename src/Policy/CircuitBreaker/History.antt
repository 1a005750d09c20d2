-- ===== src/Policy/CircuitBreaker/History.antt =====
-- What a client sees over a history of calls: when the circuit trips, how long it blocks, and how
-- it recovers (circuit_breaker.rs).
use duende.Prelude.{
  ℕ, zero, suc, ◌+◌, ◌≤◌, ◌<◌, ◌≡◌, ◌≢◌, ◌⊎◌, refl, inl, true, false, List, [], ◌∷◌, some, arith,
  All, leb, if◌then◌else◌, u32_mod,
}
use duende.Policy.CircuitBreaker.{
  CircuitState, closed, open_state, half_open, CircuitBreaker, new, maybe_transition, read_state,
  allow, record_success, record_failure,
}
use duende.Policy.CircuitBreaker.Invariant.{
  Call, reads_state, allows, succeeds, fails, resets, step, run, IsValid,
}

-- `n` failures in a row, the call number `i` from the last at time `at i`.
pub fail_times : ℕ → (ℕ → ℕ) → CircuitBreaker → CircuitBreaker
fail_times zero at b = b
fail_times (suc n) at b = record_failure (at n) (fail_times n at b)

abbrev pub tripped : ℕ → ℕ → CircuitState
tripped threshold zero = closed
tripped threshold (suc n) = if leb threshold (suc n) then open_state else closed

record AfterFailures (threshold n : ℕ) (b : CircuitBreaker) : Type 0 where
  kept : b.failure_threshold ≡ threshold
  trips : b.state ≡ tripped threshold n
  counted : b.state ≡ closed → b.failure_count ≡ n

after_failures :
    (threshold timeout n : ℕ) (at : ℕ → ℕ)
    → threshold < u32_mod
    → AfterFailures threshold n (fail_times n at (new threshold timeout))
unfolding fail_times new record_failure
after_failures threshold timeout zero at h = ground arith
after_failures threshold timeout (suc zero) at h = ground arith
after_failures threshold timeout (suc (suc n)) at h =
    ground (arith, after_failures threshold timeout (suc n) at h)

-- After n failures in a row at any times, a breaker made by `new` with a 32-bit threshold is
-- closed if n is 0 or below the threshold, and open otherwise.
pub fail_times-tripped :
    (threshold timeout n : ℕ) (at : ℕ → ℕ)
    → threshold < u32_mod
    → (fail_times n at (new threshold timeout)).state ≡ tripped threshold n
fail_times-tripped threshold timeout n at h = (after_failures threshold timeout n at h).trips

-- A call that is no reset, at a time less than `timeout` after `since`.
abbrev pub Within : ℕ → ℕ → ℕ × Call → Type 0
Within since timeout (now, c) = (now < since + timeout) × (c ≢ resets)

step_open :
    (b : CircuitBreaker) (since : ℕ) (e : ℕ × Call)
    → b.state ≡ open_state
    → b.opened_at ≡ some since
    → Within since b.recovery_timeout e
    → 0 < b.recovery_timeout
    → step b e ≡ b
unfolding step
step_open b since (now, reads_state) s o w p = unfold read_state maybe_transition in ground arith
step_open b since (now, allows) s o w p = unfold allow maybe_transition in ground arith
step_open b since (now, succeeds) s o w p = unfold record_success in ground arith
step_open b since (now, fails) s o w p = unfold record_failure in ground arith
step_open b since (now, resets) s o w p = absurd (w.1 refl)

-- While a circuit is open, no calls but `reset` within the recovery timeout change the breaker,
-- and a request at the end of them, still within the timeout, is refused.
pub run-blocks :
    (b : CircuitBreaker) (since now : ℕ) (es : List (ℕ × Call))
    → b.state ≡ open_state
    → b.opened_at ≡ some since
    → All (Within since b.recovery_timeout) es
    → now < since + b.recovery_timeout
    → 0 < b.recovery_timeout
    → (run b es ≡ b) × ((allow now (run b es)).1 ≡ false)
unfolding run
run-blocks b since now [] s o w h p = (refl, unfold allow maybe_transition in ground arith)
run-blocks b since now (e ∷ es) s o w h p =
    simp (step_open b since e s o w.0 p) (run-blocks b since now es s o w.1 h p)

abbrev pub OpenedAt : ℕ → CircuitBreaker → Type 0
OpenedAt now b = (b.state ≡ open_state) × (b.opened_at ≡ some now)

-- Once the recovery timeout has passed, a request to an open circuit is let through and leaves it
-- half-open; three successes then close it with both counters and the opening time cleared, and
-- a failure in place of any of the three opens it again at the time of that failure.
pub allow-recovers :
    (b : CircuitBreaker) (since now later : ℕ)
    → b.state ≡ open_state
    → b.opened_at ≡ some since
    → since + b.recovery_timeout ≤ now
    → let (p, granted) = allow now b in
      let one = record_success p in
      let two = record_success one in
      (granted ≡ true)
      × (p.state ≡ half_open)
      × (record_success two ≡ new b.failure_threshold b.recovery_timeout)
      × OpenedAt later (record_failure later p)
      × OpenedAt later (record_failure later one)
      × OpenedAt later (record_failure later two)
unfolding allow maybe_transition record_success record_failure new
allow-recovers b since now later s o h = ground arith

-- A call that closes a circuit which was not closed is a reset, or the success that follows two
-- counted successes of a half-open circuit.
pub step-closes :
    (b : CircuitBreaker) (now : ℕ) (c : Call)
    → IsValid b
    → b.state ≢ closed
    → (step b (now, c)).state ≡ closed
    → (c ≡ resets) ⊎ ((c ≡ succeeds) × (b.state ≡ half_open) × (b.success_count ≡ 2))
unfolding step
step-closes b now reads_state v n h = unfold read_state maybe_transition in ground arith
step-closes b now allows v n h = unfold allow maybe_transition in ground arith
step-closes b now succeeds v n h = unfold record_success in ground arith
step-closes b now fails v n h = unfold record_failure in ground arith
step-closes b now resets v n h = inl refl
