-- ===== src/Core/Types.antt =====
-- crates/duende-core/src/types.rs: identifiers, the lifecycle states, signals and health results.
pub mod Laws
use duende.Prelude.{
  ℕ, ◌≡◌, Bool, true, false, not, ◌&&◌, ◌||◌, Option, none, some, List, [], ◌∷◌, String, ◌==◌,
  if◌then◌else◌,
}

-- `uuid::Uuid`, the 128 bits read as a number.
abbrev pub DaemonId : Type 0
DaemonId = ℕ

-- The `i32` of exit codes and signal numbers: `negsuc n` is -(n + 1).
pub data ℤ : Type 0 where
  pos : ℕ → ℤ
  negsuc : ℕ → ℤ

pub data FailureReason : Type 0 where
  signal : ℤ → FailureReason
  exit_code : ℤ → FailureReason
  resource_exhausted policy_violation health_check_timeout internal : FailureReason

pub data DaemonStatus : Type 0 where
  created starting running paused stopping stopped : DaemonStatus
  failed : FailureReason → DaemonStatus

unfoldable pub is_terminal : DaemonStatus → Bool
is_terminal stopped = true
is_terminal (failed r) = true
is_terminal _ = false

unfoldable pub is_active : DaemonStatus → Bool
is_active running = true
is_active paused = true
is_active _ = false

unfoldable pub can_signal : DaemonStatus → Bool
can_signal running = true
can_signal paused = true
can_signal stopping = true
can_signal _ = false

pub data Signal : Type 0 where
  hup int quit term kill usr1 usr2 stop cont : Signal

pub data ExitReason : Type 0 where
  graceful : ExitReason
  signal : Signal → ExitReason
  error : String → ExitReason
  resource_exhausted : String → ExitReason
  policy_violation : String → ExitReason

unfoldable pub as_i32 : Signal → ℤ
as_i32 hup = pos 1
as_i32 int = pos 2
as_i32 quit = pos 3
as_i32 term = pos 15
as_i32 kill = pos 9
as_i32 usr1 = pos 10
as_i32 usr2 = pos 12
as_i32 stop = pos 19
as_i32 cont = pos 18

unfoldable pub from_i32 : ℤ → Option Signal
from_i32 (negsuc n) = none
from_i32 (pos n) =
    if n == 1
    then some hup
    else if n == 2
    then some int
    else if n == 3
    then some quit
    else if n == 15
    then some term
    else if n == 9
    then some kill
    else if n == 10
    then some usr1
    else if n == 12
    then some usr2
    else if n == 19
    then some stop
    else if n == 18
    then some cont
    else none

pub record HealthCheck : Type 0 where
  pub name : String
  pub passed : Bool
  pub message : Option String

pub record HealthStatus : Type 0 where
  pub healthy : Bool
  pub checks : List HealthCheck
  pub latency_ms : ℕ
  pub last_check_epoch_ms : ℕ

-- `HealthStatus::healthy` and `::unhealthy`; the system clock's reading is an argument.
unfoldable pub healthy_status : ℕ → ℕ → HealthStatus
healthy_status epoch_ms latency_ms = record {
  healthy = true;
  checks = [];
  latency_ms = latency_ms;
  last_check_epoch_ms = epoch_ms;
}

unfoldable pub unhealthy_status : ℕ → String → ℕ → HealthStatus
unhealthy_status epoch_ms reason latency_ms = record {
  healthy = false;
  checks = record { name = "main"; passed = false; message = some reason } ∷ [];
  latency_ms = latency_ms;
  last_check_epoch_ms = epoch_ms;
}

abbrev pub is_healthy : HealthStatus → Bool
is_healthy s = s.healthy
