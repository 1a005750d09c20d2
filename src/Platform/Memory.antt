-- ===== src/Platform/Memory.antt =====
-- crates/duende-platform/src/memory.rs, as compiled for Linux: locking the memory of a daemon that
-- serves as a swap device.
use duende.Prelude.{
  ℕ, Bool, false, Option, none, some, String, List, [], ◌∷◌, ltb, ◌==◌, if◌then◌else◌, u64_mod,
}
use duende.Prelude.Text.{chars, strip_prefix, lines_from, split_whitespace}
use duende.Prelude.Decimal.{parse}
use duende.Core.Config.{ResourceConfig}
use duende.Core.Adapter.{text, with_code}
use duende.Platform.Error.{PlatformError, Result, ok, err}
use duende.Mlock.System.{System}

pub data MlockResult : Type 0 where
  success disabled : MlockResult
  failed : ℕ → MlockResult

-- The title of the error, by its number: ENOMEM, EPERM, EINVAL or another.
abbrev pub title_of : ℕ → String
title_of errno =
    if errno == 12
    then "mlockall() failed: insufficient memory or resource limits (check RLIMIT_MEMLOCK)"
    else if errno == 1
    then "mlockall() failed: insufficient privileges (need CAP_IPC_LOCK or root)"
    else if errno == 22
    then "mlockall() failed: invalid flags"
    else "mlockall() failed: unknown error"

-- The second of the words, if it is a number.
abbrev pub second_number : List (List ℕ) → Option ℕ
second_number (name ∷ number ∷ rest) = parse u64_mod number
second_number _ = none

unfoldable pub locked_in : List (List ℕ) → Bool
unfolding strip_prefix split_whitespace parse
locked_in [] = false
locked_in (l ∷ ls) =
    let later = locked_in ls in
    elim (strip_prefix (chars "VmLck:") l) [
      | none ↦ later
      | some rest ↦ elim (second_number (split_whitespace l)) [ none ↦ later | some kb ↦ ltb 0 kb ]
    ]

module _ (y : System) where
  abbrev pub answered : Bool → Option ℕ × y.State → Result MlockResult × y.State
  answered required (none, s) = (ok success, s)
  answered required (some errno, s) = (
    if required
        then err (PlatformError.resource (with_code (title_of errno) errno))
        else ok (failed errno),
    s,
  )

  -- MCL_CURRENT and MCL_FUTURE are the bits 1 and 2.
  unfoldable pub lock_daemon_memory : Bool → y.State → Result MlockResult × y.State
  lock_daemon_memory required s = answered required (y.mlockall 3 s)

  unfoldable pub is_memory_locked : y.State → Bool
  unfolding locked_in lines_from
  is_memory_locked s = elim (y.own_status s) [
    | none ↦ false
    | some content ↦ locked_in (lines_from [] content)
  ]

  abbrev pub unlocked : Option ℕ × y.State → Result (Unit {0}) × y.State
  unlocked (none, s) = (ok tt, s)
  unlocked (some errno, s) = (err (PlatformError.resource (text "munlockall() failed")), s)

  unfoldable pub unlock_daemon_memory : y.State → Result (Unit {0}) × y.State
  unlock_daemon_memory s = unlocked (y.munlockall s)

  abbrev pub applied : Result MlockResult × y.State → Result (Unit {0}) × y.State
  applied (err e, s) = (err e, s)
  applied (ok r, s) = (ok tt, s)

  unfoldable pub apply_memory_config :
      {F : Type 0} → ResourceConfig F → y.State → Result (Unit {0}) × y.State
  unfolding lock_daemon_memory
  apply_memory_config c s =
      if c.lock_memory then applied (lock_daemon_memory c.lock_memory_required s) else (ok tt, s)
