-- ===== src/Ublk/Devices.antt =====
-- crates/duende-ublk/src/control.rs: the names of the devices, the search for orphans in a directory,
-- and their removal. The file system is an interface of what it answers.
pub mod Orphans
pub mod Cleaning
use duende.Prelude.{
  ℕ, zero, suc, ◌+◌, ◌-◌, ◌==◌, ◌⊎◌, inl, inr, Bool, true, false, Option, none, some, List, [], ◌∷◌,
  ◌++◌, if◌then◌else◌,
}
use duende.Prelude.Text.{chars, strip_prefix, join}
use duende.Prelude.Decimal.{to_string, parse}
use duende.Ublk.Error.{UblkError, control_device_not_found, scan_dev_dir, Result, ok, err}
use duende.Ublk.Control.{Ring, force_delete, open_device}

-- Which paths are there, and what a directory's entries are: an error code, or the code of an
-- entry that cannot be read, or its name.
pub record Files : Type 0 where
  pub exists : List ℕ → Bool
  pub read_dir : List ℕ → ℕ ⊎ List (ℕ ⊎ List ℕ)

abbrev pub u32_limit : ℕ
u32_limit = 4294967296

unfoldable pub block_device_path : ℕ → List ℕ
block_device_path dev_id = chars "/dev/ublkb" ++ to_string dev_id

unfoldable pub char_device_path : ℕ → List ℕ
char_device_path dev_id = chars "/dev/ublkc" ++ to_string dev_id

unfoldable pub parse_char_device_id : List ℕ → Option ℕ
parse_char_device_id name = elim (strip_prefix (chars "ublkc") name) [
  | none ↦ none
  | some id ↦ parse u32_limit id
]

-- The loop over a directory's entries, with what it does for a name.
unfoldable pub scan : (List ℕ → List ℕ → List ℕ) → List (ℕ ⊎ List ℕ) → List ℕ → Result (List ℕ)
scan visit [] orphans = ok orphans
scan visit (inl code ∷ entries) orphans = err (scan_dev_dir code)
scan visit (inr name ∷ entries) orphans = scan visit entries (visit name orphans)

unfoldable pub scan_dir : (List ℕ → List ℕ → List ℕ) → ℕ ⊎ List (ℕ ⊎ List ℕ) → Result (List ℕ)
unfolding scan
scan_dir visit (inl code) = err (scan_dev_dir code)
scan_dir visit (inr entries) = scan visit entries []

module _ (files : Files) where
  unfoldable pub block_device_exists : ℕ → Bool
  unfolding block_device_path
  block_device_exists dev_id = files.exists (block_device_path dev_id)

  unfoldable pub control_device_available : Bool
  control_device_available = files.exists (chars "/dev/ublk-control")

  abbrev pub visit_dev : List ℕ → List ℕ → List ℕ
  visit_dev name orphans = elim (strip_prefix (chars "ublkc") name) [
    | none ↦ orphans
    | some id_str ↦ elim (parse u32_limit id_str) [
      | none ↦ orphans
      | some dev_id ↦
          if files.exists (chars "/dev/ublkb" ++ to_string dev_id)
          then orphans
          else orphans ++ (dev_id ∷ [])
    ]
  ]

  unfoldable pub detect_orphaned_devices : Result (List ℕ)
  unfolding scan_dir
  detect_orphaned_devices =
      if files.exists (chars "/dev")
      then scan_dir visit_dev (files.read_dir (chars "/dev"))
      else ok []

  unfoldable pub visit : List ℕ → List ℕ → List ℕ → List ℕ
  unfolding parse_char_device_id join
  visit dev_path name orphans = elim (parse_char_device_id name) [
    | none ↦ orphans
    | some dev_id ↦
        if files.exists (join dev_path (chars "ublkb" ++ to_string dev_id))
        then orphans
        else orphans ++ (dev_id ∷ [])
  ]

  unfoldable pub detect_orphans_in_dir : List ℕ → Result (List ℕ)
  unfolding scan_dir visit
  detect_orphans_in_dir dev_path =
      if files.exists dev_path then scan_dir (visit dev_path) (files.read_dir dev_path) else ok []

abbrev pub unwrap_or_default : Result (List ℕ) → List ℕ
unwrap_or_default (err e) = []
unwrap_or_default (ok ids) = ids

-- A device that was removed is counted; a missing one and a failure are not.
abbrev pub count : Result Bool → ℕ → ℕ
count (ok true) cleaned = cleaned + 1
count (ok false) cleaned = cleaned
count (err e) cleaned = cleaned

abbrev pub unopened : UblkError → Result ℕ
unopened control_device_not_found = ok 0
unopened e = err e

module _ (u : Ring) where
  -- `none` stands for a loop that does not end, as in the module of the commands.
  unfoldable pub clean : List ℕ → ℕ → u.State → Option (Result ℕ × u.State)
  unfolding force_delete
  clean [] cleaned s = some (ok cleaned, s)
  clean (dev_id ∷ orphans) cleaned s = elim (force_delete u dev_id s) [
    | none ↦ none
    | some (r, s') ↦ clean orphans (count r cleaned) s'
  ]

  -- The next `fuel` numbers from `dev_id` on.
  unfoldable pub clean_range : Files → ℕ → ℕ → ℕ → u.State → Option (Result ℕ × u.State)
  unfolding force_delete block_device_exists
  clean_range files zero dev_id cleaned s = some (ok cleaned, s)
  clean_range files (suc fuel) dev_id cleaned s = elim (block_device_exists files dev_id) [
    | true ↦ clean_range files fuel (dev_id + 1) cleaned s
    | false ↦ elim (force_delete u dev_id s) [
      | none ↦ none
      | some (r, s') ↦ clean_range files fuel (dev_id + 1) (count r cleaned) s'
    ]
  ]

  -- What opening gives: an error, or the state of a new ring.
  module _ (files : Files) (opened : Result u.State) (s : u.State) where
    unfoldable pub cleanup_device_range : ℕ → ℕ → Option (Result ℕ × u.State)
    unfolding clean_range
    cleanup_device_range start end = elim opened [
      | err e ↦ some (unopened e, s)
      | ok s' ↦ clean_range files (end - start) start 0 s'
    ]

    abbrev pub clean_found : List ℕ → Option (Result ℕ × u.State)
    unfolding clean cleanup_device_range
    clean_found [] = cleanup_device_range 0 8
    clean_found (dev_id ∷ orphans) = elim opened [
      | err e ↦ some (unopened e, s)
      | ok s' ↦ clean (dev_id ∷ orphans) 0 s'
    ]

    unfoldable pub cleanup_orphaned_devices : Option (Result ℕ × u.State)
    unfolding detect_orphaned_devices clean_found
    cleanup_orphaned_devices = clean_found (unwrap_or_default (detect_orphaned_devices files))
