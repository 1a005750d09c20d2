-- ===== src/Mlock.antt =====
-- crates/duende-mlock/src, as compiled for Linux: the configuration (config.rs), the errors (error.rs)
-- and the results (status.rs) of locking a process's memory.
pub mod System
pub mod Locking
pub mod Reading
pub mod Agreement
mod Examples
use duende.Prelude.{
  ℕ, ◌+◌, ◌/◌, Bool, true, false, Option, none, some, List, ◌++◌, ltb, leb, ◌==◌, if◌then◌else◌,
}
use duende.Prelude.Text.{chars}
use duende.Prelude.Decimal.{to_string}

pub record MlockConfig : Type 0 where
  pub current : Bool
  pub future : Bool
  pub required : Bool
  pub onfault : Bool

-- The defaults, with which the builder starts too.
abbrev pub default_config : MlockConfig
default_config = record { current = true; future = true; required = true; onfault = false }

-- The builder's setters.
abbrev pub set_current : Bool → MlockConfig → MlockConfig
set_current value c = record c { current = value }

abbrev pub set_future : Bool → MlockConfig → MlockConfig
set_future value c = record c { future = value }

abbrev pub set_required : Bool → MlockConfig → MlockConfig
set_required value c = record c { required = value }

abbrev pub set_onfault : Bool → MlockConfig → MlockConfig
set_onfault value c = record c { onfault = value }

-- MCL_CURRENT, MCL_FUTURE and MCL_ONFAULT are the bits 1, 2 and 4, so `|=` adds.
unfoldable pub as_flags : MlockConfig → ℕ
as_flags c =
    (if c.current then 1 else 0) + ((if c.future then 2 else 0) + (if c.onfault then 4 else 0))

pub data MlockError : Type 0 where
  permission_denied resource_limit invalid_argument would_block : MlockError
  unknown : ℕ → MlockError

-- EPERM, ENOMEM, EINVAL and EAGAIN.
unfoldable pub from_errno : ℕ → MlockError
from_errno errno =
    if errno == 1
    then permission_denied
    else if errno == 12
    then resource_limit
    else if errno == 22
    then invalid_argument
    else if errno == 11
    then would_block
    else unknown errno

unfoldable pub errno : MlockError → Option ℕ
errno permission_denied = some 1
errno resource_limit = some 12
errno invalid_argument = some 22
errno would_block = some 11
errno (unknown e) = some e

abbrev pub is_permission_error : MlockError → Bool
is_permission_error permission_denied = true
is_permission_error _ = false

abbrev pub is_resource_limit : MlockError → Bool
is_resource_limit resource_limit = true
is_resource_limit _ = false

pub data MlockStatus : Type 0 where
  locked : ℕ → MlockStatus
  failed : ℕ → MlockStatus
  unsupported : MlockStatus

abbrev pub is_locked_status : MlockStatus → Bool
is_locked_status (locked bytes) = true
is_locked_status _ = false

abbrev pub is_failed : MlockStatus → Bool
is_failed (failed e) = true
is_failed _ = false

abbrev pub is_unsupported : MlockStatus → Bool
is_unsupported unsupported = true
is_unsupported _ = false

abbrev pub bytes_locked : MlockStatus → ℕ
bytes_locked (locked bytes) = bytes
bytes_locked _ = 0

abbrev pub failure_errno : MlockStatus → Option ℕ
failure_errno (failed e) = some e
failure_errno _ = none

-- `Display`.
unfoldable pub fmt_status : MlockStatus → List ℕ
fmt_status (locked bytes) =
    if leb 1048576 bytes
    then chars "locked (" ++ (to_string (bytes / 1048576) ++ chars " MB)")
    else if leb 1024 bytes
    then chars "locked (" ++ (to_string (bytes / 1024) ++ chars " KB)")
    else chars "locked (" ++ (to_string bytes ++ chars " bytes)")
fmt_status (failed e) = chars "failed (errno=" ++ (to_string e ++ chars ")")
fmt_status unsupported = chars "unsupported platform"

pub data Result {ℓ} (T : Type ℓ) : Type ℓ where
  err : MlockError → Result T
  ok : T → Result T
