-- ===== src/Platform/Error.antt =====
-- crates/duende-platform/src/error.rs: the errors of the platform adapters.
use duende.Prelude.{ℕ, Option, none, some}
use duende.Core.Adapter.{Message}
use duende.Core.Error.{DaemonError}

pub data PlatformError : Type 0 where
  not_supported not_implemented spawn signal status tracer resource : Message → PlatformError
  io : ℕ → PlatformError  -- the error code of `std::io::Error`
  daemon : DaemonError → PlatformError

pub data Result {ℓ} (T : Type ℓ) : Type ℓ where
  err : PlatformError → Result T
  ok : T → Result T

infixl 5 ◌>>=◌
abbrev pub ◌>>=◌ {ℓ κ} : {S : Type ℓ} {T : Type κ} → Result S → (S → Result T) → Result T
err failure >>= next = err failure
ok value >>= next = next value

-- `Option::ok_or_else`.
abbrev pub ok_or {ℓ} : {A : Type ℓ} → PlatformError → Option A → Result A
ok_or e none = err e
ok_or e (some a) = ok a
