-- ===== src/Mlock/Locking.antt =====
-- What a lock of the memory comes to, and the flags and error numbers behind it
-- (crates/duende-mlock/src/config.rs, error.rs and unix.rs).
use duende.Prelude.{
  ℕ, ◌/◌, ◌%◌, ◌≡◌, ◌≢◌, refl, ◌⊎◌, inl, inr, Bool, true, false, Option, none, some, ◌==◌, arith,
  Bool-cases,
}
use duende.Mlock.{
  MlockConfig, as_flags, from_errno, errno, MlockStatus, locked, failed, Result, ok, err,
  MlockError, permission_denied, resource_limit, invalid_argument, would_block, unknown,
}
use duende.Mlock.System.{System, locked_bytes, answered, lock_with_config}

-- An error made of an error number has that number.
pub errno-from_errno : (e : ℕ) → errno (from_errno e) ≡ some e
unfolding errno from_errno
errno-from_errno e = ground arith

unfoldable pub bit_of : Bool → ℕ
bit_of true = 1
bit_of false = 0

-- The three lowest bits of the flags are the settings, and no other bit is set.
pub as_flags-bits :
    (c : MlockConfig)
    → (as_flags c % 2 ≡ bit_of c.current)
      × (as_flags c / 2 % 2 ≡ bit_of c.future)
      × (as_flags c / 4 ≡ bit_of c.onfault)
unfolding as_flags bit_of
as_flags-bits c = (ground arith, ground arith, ground arith)

-- The error that an error number of the system stands for.
abbrev pub Means : ℕ → MlockError → Type 0
Means e permission_denied = e ≡ 1
Means e resource_limit = e ≡ 12
Means e invalid_argument = e ≡ 22
Means e would_block = e ≡ 11
Means e (unknown n) = (n ≡ e) × (e ≢ 1) × (e ≢ 12) × (e ≢ 22) × (e ≢ 11)

from_errno-Means : (e : ℕ) → Means e (from_errno e)
unfolding from_errno
from_errno-Means e = ground arith

-- The number whose bits are the settings, the lowest that of the current pages.
abbrev pub HasBits : MlockConfig → ℕ → Type 0
HasBits c flags =
    (flags % 2 ≡ bit_of c.current)
    × (flags / 2 % 2 ≡ bit_of c.future)
    × (flags / 4 ≡ bit_of c.onfault)

module _ (y : System) where
  abbrev pub Called : MlockConfig → y.State → ℕ → Result MlockStatus × y.State → Type 0
  Called c s flags o =
      ((t : y.State) × (y.mlockall flags s ≡ (none, t)) × (o ≡ (ok (locked (locked_bytes y t)), t)))
      ⊎ ((e : ℕ) × (t : y.State) × (y.mlockall flags s ≡ (some e, t))
          × (((c.required ≡ true) × ((error : MlockError) × Means e error × (o ≡ (err error, t))))
              ⊎ ((c.required ≡ false) × (o ≡ (ok (failed e), t)))))

  -- Nothing to lock; or something, and the call of the system with the flags, and its outcome.
  abbrev pub Outcome : MlockConfig → y.State → Result MlockStatus × y.State → Type 0
  Outcome c s o =
      ((c.current ≡ false) × (c.future ≡ false) × (c.onfault ≡ false) × (o ≡ (ok (locked 0), s)))
      ⊎ (((c.current ≡ true) ⊎ ((c.future ≡ true) ⊎ (c.onfault ≡ true)))
          × ((flags : ℕ) × HasBits c flags × Called c s flags o))

  no_flags :
      (c : MlockConfig)
      → (as_flags c == 0) ≡ true
      → (c.current ≡ false) × (c.future ≡ false) × (c.onfault ≡ false)
  unfolding as_flags
  no_flags c h = (ground arith, ground arith, ground arith)

  some_flags :
      (c : MlockConfig)
      → (as_flags c == 0) ≡ false
      → (c.current ≡ true) ⊎ ((c.future ≡ true) ⊎ (c.onfault ≡ true))
  unfolding as_flags
  some_flags c h = ground arith

  answered-Called :
      (c : MlockConfig) (s : y.State) (o : Option ℕ × y.State)
      → y.mlockall (as_flags c) s ≡ o
      → Called c s (as_flags c) (answered y c o)
  answered-Called c s (none, t) e = inl (t, e, refl)
  answered-Called c s (some number, t) e = elim (Bool-cases c.required) [
    | inl needed ↦ inr (
      number,
      t,
      e,
      inl (needed, (from_errno number, from_errno-Means number, rw (needed, answered) refl)),
    )
    | inr optional ↦ inr (number, t, e, inr (optional, rw (optional, answered) refl))
  ]

  -- A lock with no flag set succeeds with 0 bytes and calls nothing. Another calls `mlockall` once, with
  -- a number of which the settings are the bits: its success is reported with the bytes that are
  -- locked afterwards, its failure as the error of that error number where the lock is required, and
  -- as a failed status with the error number where it is not.
  pub lock_with_config-Outcome :
      (c : MlockConfig) (s : y.State) → Outcome c s (lock_with_config y c s)
  unfolding lock_with_config
  lock_with_config-Outcome c s = elim (Bool-cases (as_flags c == 0)) [
    | inl nothing ↦
        let (a, b, d) = no_flags c nothing in inl (a, b, d, rw (nothing, lock_with_config) refl)
    | inr some_flag ↦
        rw (some_flag, lock_with_config)
          (inr (
            some_flags c some_flag,
            (as_flags c, as_flags-bits c, answered-Called c s (y.mlockall (as_flags c) s) refl),
          ))
  ]
