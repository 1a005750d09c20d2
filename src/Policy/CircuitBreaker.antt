-- ===== src/Policy/CircuitBreaker.antt =====
-- crates/duende-policy/src/circuit_breaker.rs. A method takes the breaker and returns it changed;
-- `Instant::now()` is the argument `now`, in nanoseconds, and `elapsed` stops at zero as `-` does.
-- Each method is one step: threads that interleave inside a method are not modelled. Counters are
-- atomics of 64 bits and wrap.
pub mod Invariant
pub mod Refinement
pub mod History
mod Examples
use duende.Prelude.{
  ℕ, ◌+◌, ◌-◌, Bool, true, false, not, Option, none, some, leb, if◌then◌else◌, wrap64,
}

pub data CircuitState : Type 0 where
  closed open_state half_open : CircuitState

pub record CircuitBreaker : Type 0 where
  pub state : CircuitState
  pub failure_threshold : ℕ  -- u32
  pub failure_count : ℕ  -- u64
  pub success_count : ℕ  -- u64
  pub recovery_timeout : ℕ
  pub opened_at : Option ℕ

unfoldable pub new : ℕ → ℕ → CircuitBreaker
new failure_threshold recovery_timeout = record {
  state = closed;
  failure_threshold = failure_threshold;
  failure_count = 0;
  success_count = 0;
  recovery_timeout = recovery_timeout;
  opened_at = none;
}

-- `Default`: five failures, thirty seconds.
unfoldable pub default : CircuitBreaker
unfolding new
default = new 5 30000000000

abbrev pub is_open : CircuitState → Bool
is_open open_state = true
is_open _ = false

-- `open` of the source.
unfoldable pub open_circuit : ℕ → CircuitBreaker → CircuitBreaker
open_circuit now b = record b { state = open_state; opened_at = some now; success_count = 0 }

unfoldable pub close : CircuitBreaker → CircuitBreaker
close b = record b { state = closed; failure_count = 0; success_count = 0; opened_at = none }

-- The closure over `opened_at`, and `unwrap_or(false)`.
abbrev pub should_transition : ℕ → ℕ → Option ℕ → Bool
should_transition now timeout none = false
should_transition now timeout (some opened) = leb timeout (now - opened)

unfoldable pub maybe_transition : ℕ → CircuitBreaker → CircuitBreaker
maybe_transition now b =
    if not (is_open b.state)
    then b
    else if should_transition now b.recovery_timeout b.opened_at
    then (if is_open b.state then record b { state = half_open; success_count = 0 } else b)
    else b

-- `state()`: the method that reads the state.
unfoldable pub read_state : ℕ → CircuitBreaker → CircuitBreaker × CircuitState
unfolding maybe_transition
read_state now b = let b' = maybe_transition now b in (b', b'.state)

abbrev allowed : CircuitState → Bool
allowed closed = true
allowed half_open = true
allowed open_state = false

unfoldable pub allow : ℕ → CircuitBreaker → CircuitBreaker × Bool
unfolding maybe_transition
allow now b = let b' = maybe_transition now b in (b', allowed b'.state)

success_in : CircuitState → CircuitBreaker → CircuitBreaker
unfolding close
success_in closed b = record b { failure_count = 0 }
success_in half_open b =
    let count = wrap64 (b.success_count + 1) in
    let b' = record b { success_count = count } in if leb 3 count then close b' else b'
success_in open_state b = b

unfoldable pub record_success : CircuitBreaker → CircuitBreaker
unfolding success_in
record_success b = success_in b.state b

failure_in : CircuitState → ℕ → CircuitBreaker → CircuitBreaker
unfolding open_circuit
failure_in closed now b =
    let count = wrap64 (b.failure_count + 1) in
    let b' = record b { failure_count = count } in
    if leb b.failure_threshold count then open_circuit now b' else b'
failure_in half_open now b = open_circuit now b
failure_in open_state now b = b

unfoldable pub record_failure : ℕ → CircuitBreaker → CircuitBreaker
unfolding failure_in
record_failure now b = failure_in b.state now b

unfoldable pub reset : CircuitBreaker → CircuitBreaker
unfolding close
reset b = close b
