-- ===== src/Core/Restart.antt =====
-- crates/duende-core/src/manager.rs, the first part: restart policies and the backoff between
-- restarts. Durations are nanoseconds; the arithmetic of `f64` on them is an interface.
pub mod Backoff
pub mod Fixed
use duende.Prelude.{
  ℕ, ◌+◌, ◌-◌, ◌≤◌, ◌≡◌, Bool, true, false, ◌&&◌, Option, none, some, ltb, if◌then◌else◌, u32_mod,
}
use duende.Prelude.Float.{F64}
use duende.Core.Types.{ℤ, pos, negsuc, ExitReason}

-- The library's float functions that `delay_for` calls. `from_secs_f64` panics, here `none`, on a
-- negative value, on NaN and beyond the range of `Duration`.
pub record FloatTime : Type 1 where
  pub f64 : F64
  pub open f64 use *
  pub as_secs_f64 : ℕ → Carrier
  pub from_secs_f64 : Carrier → Option ℕ
  pub mul : Carrier → Carrier → Carrier
  pub powi : Carrier → ℤ → Carrier
  pub minimum : Carrier → Carrier → Carrier

pub record BackoffConfig (F : Type 0) : Type 0 where
  pub initial_delay : ℕ
  pub max_delay : ℕ
  pub multiplier : F
  pub max_retries : ℕ  -- u32

pub data RestartPolicy (F : Type 0) : Type 0 where
  never always on_failure : RestartPolicy F
  max_retries : ℕ → RestartPolicy F
  with_backoff : BackoffConfig F → RestartPolicy F

-- The `matches!` on errors and exhausted resources.
abbrev pub is_failure : ExitReason → Bool
is_failure (ExitReason.error m) = true
is_failure (ExitReason.resource_exhausted m) = true
is_failure _ = false

unfoldable pub should_restart : {F : Type 0} → RestartPolicy F → ExitReason → ℕ → Bool
should_restart never r n = false
should_restart always r n = true
should_restart on_failure r n = is_failure r
should_restart (max_retries max) r n = ltb n max
should_restart (with_backoff c) r n = ltb n c.max_retries && is_failure r

-- `restart_count as i32`.
abbrev pub as_i32 : ℕ → ℤ
as_i32 n = if ltb n 2147483648 then pos n else negsuc (u32_mod - n - 1)

-- `BackoffConfig::default`; `new` is the same.
unfoldable pub default_backoff : (f : F64) → BackoffConfig f.Carrier
default_backoff f = record {
  initial_delay = 1000000000;
  max_delay = 300000000000;
  multiplier = f.of_nat 2;
  max_retries = 10;
}

module _ (t : FloatTime) where
  unfoldable pub delay_for : BackoffConfig t.Carrier → ℕ → Option ℕ
  delay_for c restart_count =
      let base_secs = t.as_secs_f64 c.initial_delay in
      let exp_secs = t.mul base_secs (t.powi c.multiplier (as_i32 restart_count)) in
      let clamped_secs = t.minimum exp_secs (t.as_secs_f64 c.max_delay) in
      t.from_secs_f64 clamped_secs

  unfoldable pub restart_delay : RestartPolicy t.Carrier → ℕ → Option ℕ
  unfolding delay_for
  restart_delay (with_backoff c) n = delay_for c n
  restart_delay _ n = some 1000000000
