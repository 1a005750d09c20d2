-- ===== src/Core/Restart/Backoff.antt =====
-- The backoff delay is defined and never passes its bound, and which exits are restarted
-- (manager.rs).
use duende.Prelude.{ℕ, ◌≤◌, ◌<◌, ◌≡◌, ◌⊎◌, inl, inr, true, false, Option, none, some, arith}
use duende.Core.Types.{ℤ, pos}
use duende.Core.Restart.{
  FloatTime, BackoffConfig, RestartPolicy, max_retries, with_backoff, as_i32, delay_for,
}

-- About 13 days: below it a duration survives the conversion to seconds and back, since a double
-- then resolves less than half a nanosecond.
abbrev pub exact_ns : ℕ
exact_ns = 1125899906842624

-- The documented behaviour of `std`'s floats and durations that the bound rests on. "Not below
-- zero" is said by a comparison that is false, which is so of NaN too; `min` returns its other
-- argument for NaN. A power of a base above zero is not below zero. Of another base that is not below
-- zero this is said of the exponents from 0 on only: -0.0 is such a base, and its power -1 is -inf.
pub record FloatTimeLaws (t : FloatTime) : Type 0 where
  pub round_trip : (d : ℕ) → d ≤ exact_ns → t.from_secs_f64 (t.as_secs_f64 d) ≡ some d
  pub secs_nonneg : (d : ℕ) → t.lt (t.as_secs_f64 d) (t.of_nat 0) ≡ false
  pub powi_pos :
      (a : t.Carrier) (n : ℤ) → t.lt (t.of_nat 0) a ≡ true → t.lt (t.powi a n) (t.of_nat 0) ≡ false
  pub powi_nonneg :
      (a : t.Carrier) (n : ℕ)
      → t.lt a (t.of_nat 0) ≡ false
      → t.lt (t.powi a (pos n)) (t.of_nat 0) ≡ false
  pub mul_nonneg :
      (a b : t.Carrier)
      → t.lt a (t.of_nat 0) ≡ false
      → t.lt b (t.of_nat 0) ≡ false
      → t.lt (t.mul a b) (t.of_nat 0) ≡ false
  pub minimum-le :
      (a : t.Carrier) (d : ℕ) → t.le (t.minimum a (t.as_secs_f64 d)) (t.as_secs_f64 d) ≡ true
  pub minimum_nonneg :
      (a : t.Carrier) (d : ℕ)
      → t.lt a (t.of_nat 0) ≡ false
      → t.lt (t.minimum a (t.as_secs_f64 d)) (t.of_nat 0) ≡ false
  pub from_secs_mono :
      (a b : t.Carrier) (d : ℕ)
      → t.lt a (t.of_nat 0) ≡ false
      → t.le a b ≡ true
      → t.from_secs_f64 b ≡ some d
      → (e : ℕ) × (t.from_secs_f64 a ≡ some e) × (e ≤ d)

module _ (t : FloatTime) (laws : FloatTimeLaws t) where
  -- The exponent that a count is taken for is below 0 from 2^31 on.
  abbrev pub IsGrowth : t.Carrier → ℕ → Type 0
  IsGrowth multiplier n =
      (t.lt (t.of_nat 0) multiplier ≡ true)
      ⊎ ((t.lt multiplier (t.of_nat 0) ≡ false) × (n < 2147483648))

  as_i32-pos : (n : ℕ) → n < 2147483648 → as_i32 n ≡ pos n
  as_i32-pos n h = ground arith

  power_nonneg :
      (a : t.Carrier) (n : ℕ) → IsGrowth a n → t.lt (t.powi a (as_i32 n)) (t.of_nat 0) ≡ false
  power_nonneg a n (inl above) = laws.powi_pos a (as_i32 n) above
  power_nonneg a n (inr (from_zero, small)) =
      rw (as_i32-pos n small) (laws.powi_nonneg a n from_zero)

  -- With a maximal delay of at most 2^50 nanoseconds, and a multiplier above zero, or one that is not
  -- below zero and a count below 2^31, the delay before a restart is computed without a panic and is
  -- at most the maximal delay.
  pub delay_for-le-max :
      (c : BackoffConfig t.Carrier) (restart_count : ℕ)
      → c.max_delay ≤ exact_ns
      → IsGrowth c.multiplier restart_count
      → (e : ℕ) × (delay_for t c restart_count ≡ some e) × (e ≤ c.max_delay)
  unfolding delay_for
  delay_for-le-max c n small m =
      let base = laws.secs_nonneg c.initial_delay in
      let power = power_nonneg c.multiplier n m in
      let product = laws.mul_nonneg _ _ base power in
      laws.from_secs_mono _ _ c.max_delay (laws.minimum_nonneg _ c.max_delay product)
        (laws.minimum-le _ c.max_delay) (laws.round_trip c.max_delay small)

-- How many restarts a policy allows, where it bounds them.
abbrev pub budget : {F : Type 0} → RestartPolicy F → Option ℕ
budget (max_retries n) = some n
budget (with_backoff c) = some c.max_retries
budget _ = none
