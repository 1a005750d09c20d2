-- ===== src/Mlock/System.antt =====
-- The calls of the system and what they come to (crates/duende-mlock/src/unix.rs and lib.rs, as
-- compiled for Linux).
use duende.Prelude.{
  ℕ, ◌*◌, Bool, Option, none, some, List, [], ◌∷◌, ltb, ◌==◌, if◌then◌else◌, wrap64, u64_mod,
}
use duende.Prelude.Text.{chars, trim, strip_prefix, strip_suffix, lines_from}
use duende.Prelude.Decimal.{parse}
use duende.Mlock.{
  MlockConfig, default_config, as_flags, from_errno, MlockStatus, locked, failed, Result, ok, err,
}

-- `mlockall` and `munlockall` give the error number if they fail; `own_status` is the content of
-- /proc/self/status, if it can be read.
pub record System : Type 1 where
  pub State : Type 0
  pub mlockall : ℕ → State → Option ℕ × State
  pub munlockall : State → Option ℕ × State
  pub own_status : State → Option (List ℕ)

abbrev pub kilobytes : Option (List ℕ) → Option ℕ
kilobytes none = none
kilobytes (some word) = parse u64_mod (trim word)

-- The first line for the locked memory that can be read; its product wraps.
unfoldable pub locked_in : List (List ℕ) → ℕ
unfolding strip_prefix strip_suffix parse
locked_in [] = 0
locked_in (l ∷ ls) = elim (strip_prefix (chars "VmLck:") l) [
  | none ↦ locked_in ls
  | some rest ↦ elim (kilobytes (strip_suffix (chars " kB") (trim rest))) [
    | none ↦ locked_in ls
    | some kb ↦ wrap64 (kb * 1024)
  ]
]

module _ (y : System) where
  unfoldable pub locked_bytes : y.State → ℕ
  unfolding locked_in lines_from
  locked_bytes s = elim (y.own_status s) [ none ↦ 0 | some text ↦ locked_in (lines_from [] text) ]

  abbrev pub is_locked : y.State → Bool
  is_locked s = ltb 0 (locked_bytes s)

  abbrev pub answered : MlockConfig → Option ℕ × y.State → Result MlockStatus × y.State
  answered c (none, s) = (ok (locked (locked_bytes s)), s)
  answered c (some errno, s) = (if c.required then err (from_errno errno) else ok (failed errno), s)

  unfoldable pub lock_with_config : MlockConfig → y.State → Result MlockStatus × y.State
  unfolding as_flags locked_bytes from_errno
  lock_with_config c s =
      if as_flags c == 0 then (ok (locked 0), s) else answered c (y.mlockall (as_flags c) s)

  abbrev pub lock_all : y.State → Result MlockStatus × y.State
  lock_all s = lock_with_config default_config s

  abbrev pub unlocked : Option ℕ × y.State → Result (Unit {0}) × y.State
  unlocked (none, s) = (ok tt, s)
  unlocked (some errno, s) = (err (from_errno errno), s)

  unfoldable pub unlock_all : y.State → Result (Unit {0}) × y.State
  unfolding from_errno
  unlock_all s = unlocked (y.munlockall s)
