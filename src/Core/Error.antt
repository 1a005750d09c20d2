-- ===== src/Core/Error.antt =====
-- crates/duende-core/src/error.rs: `DaemonError` and the result type of the crate.
pub mod Laws
use duende.Prelude.{ℕ, Bool, true, false, String}
use duende.Core.Types.{DaemonId, DaemonStatus}

-- A message is its template with the values that `format!` puts in.
pub data Message : Type 0 where
  text : String → Message
  about : String → DaemonId → Message
  about_status : String → DaemonId → DaemonStatus → Message

pub data DaemonError : Type 0 where
  config init runtime shutdown : Message → DaemonError
  shutdown_timeout : ℕ → DaemonError
  health_check : Message → DaemonError
  resource_limit : String → ℕ → ℕ → DaemonError
  policy_violation signal not_found state : Message → DaemonError
  io : ℕ → DaemonError  -- the error code of `std::io::Error`
  serialization internal : Message → DaemonError

unfoldable pub is_recoverable : DaemonError → Bool
is_recoverable (health_check m) = true
is_recoverable (resource_limit r l a) = true
is_recoverable (policy_violation m) = true
is_recoverable _ = false

unfoldable pub is_fatal : DaemonError → Bool
is_fatal (init m) = true
is_fatal (internal m) = true
is_fatal _ = false

pub data Result {ℓ} (T : Type ℓ) : Type ℓ where
  err : DaemonError → Result T
  ok : T → Result T

-- The operator `?` of the language, and a statement before the rest of a body.
infixl 5 ◌>>=◌ ◌>>◌
abbrev pub ◌>>=◌ {ℓ κ} : {S : Type ℓ} {T : Type κ} → Result S → (S → Result T) → Result T
err failure >>= next = err failure
ok value >>= next = next value

abbrev pub ◌>>◌ {ℓ} : {T : Type ℓ} → Result (Unit {0}) → Result T → Result T
first >> rest = first >>= λ done. rest

-- `if test { return Err(e) }`.
abbrev pub fail_if : Bool → DaemonError → Result (Unit {0})
fail_if true e = err e
fail_if false e = ok tt
