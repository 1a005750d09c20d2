-- ===== src/Ublk/Devices/Orphans.antt =====
-- What the search for orphans reports, and the names that it reads (control.rs).
use duende.Prelude.{
  ℕ, ◌<◌, ◌≡◌, refl, sym, ap, ◌∙◌, not, ◌⊎◌, inl, inr, Bool, none, some, List, [], ◌∷◌, ◌++◌,
  if◌then◌else◌, filter, arith, Option-cases, Bool-cases,
}
use mathlib.Core.Path.{fun_ext}
use mathlib.Core.List.{append_assoc, append-nil}
use duende.Prelude.Text.{chars, strip_prefix, join}
use duende.Prelude.Decimal.{to_string, parse, parse-to_string}
use duende.Ublk.Error.{scan_dev_dir, Result, ok, err, ◌>>=◌}
use duende.Ublk.Devices.{
  Files, u32_limit, parse_char_device_id, scan, scan_dir, visit, visit_dev, detect_orphans_in_dir,
  detect_orphaned_devices,
}

-- The number that a character device's name is made with is read back from the name, and a block
-- device's name gives none.
pub parse_char_device_id_lem :
    (dev_id : ℕ)
    → dev_id < u32_limit
    → (parse_char_device_id (chars "ublkc" ++ to_string dev_id) ≡ some dev_id)
      × (parse_char_device_id (chars "ublkb" ++ to_string dev_id) ≡ none)
unfolding parse_char_device_id strip_prefix
parse_char_device_id_lem dev_id h = (parse-to_string u32_limit dev_id h (omega arith), refl)

-- The names of the entries, or the first error among them.
abbrev pub names : List (ℕ ⊎ List ℕ) → Result (List (List ℕ))
names [] = ok []
names (inl code ∷ entries) = err (scan_dev_dir code)
names (inr name ∷ entries) = names entries >>= (λ rest. ok (name ∷ rest))

abbrev pub listing : ℕ ⊎ List (ℕ ⊎ List ℕ) → Result (List (List ℕ))
listing (inl code) = err (scan_dev_dir code)
listing (inr entries) = names entries

-- The numbers of the names of character devices, in order.
abbrev pub ids : List (List ℕ) → List ℕ
ids [] = []
ids (name ∷ rest) = elim (parse_char_device_id name) [
  | none ↦ ids rest
  | some dev_id ↦ dev_id ∷ ids rest
]

module _ (files : Files) where
  -- The block device is not in the directory.
  abbrev pub alone : List ℕ → ℕ → Bool
  alone dir dev_id = not (files.exists (join dir (chars "ublkb" ++ to_string dev_id)))

  visit-filter :
      (dir name : List ℕ) (rest : List (List ℕ)) (orphans : List ℕ)
      → visit files dir name orphans ++ filter (alone dir) (ids rest)
        ≡ orphans ++ filter (alone dir) (ids (name ∷ rest))
  unfolding visit
  visit-filter dir name rest orphans = elim (Option-cases (parse_char_device_id name)) [
    | inl e ↦ rw (e, visit, ids) refl
    | inr (dev_id, e) ↦
        elim (Bool-cases (files.exists (join dir (chars "ublkb" ++ to_string dev_id)))) [
          | inl t ↦ rw (e, visit, ids) (rw (t, filter, alone) refl)
          | inr f ↦
              rw (e, visit, ids) (rw (f, filter, alone) (append_assoc orphans (dev_id ∷ []) _))
        ]
  ]

  name_first :
      (dir name : List ℕ) (orphans : List ℕ) (r : Result (List (List ℕ)))
      → (r >>= (λ l. ok (visit files dir name orphans ++ filter (alone dir) (ids l))))
        ≡ ((r >>= (λ rest. ok (name ∷ rest))) >>= (λ l. ok (orphans ++ filter (alone dir) (ids l))))
  name_first dir name orphans (err e) = refl
  name_first dir name orphans (ok l) = ap ok (visit-filter dir name l orphans)

  scan-filter :
      (dir : List ℕ) (entries : List (ℕ ⊎ List ℕ)) (orphans : List ℕ)
      → scan (visit files dir) entries orphans
        ≡ (names entries >>= (λ l. ok (orphans ++ filter (alone dir) (ids l))))
  unfolding scan
  scan-filter dir [] orphans = ap ok (sym (append-nil orphans))
  scan-filter dir (inl code ∷ entries) orphans = refl
  scan-filter dir (inr name ∷ entries) orphans =
      scan-filter dir entries (visit files dir name orphans)
      ∙ name_first dir name orphans (names entries)

  scan_dir-filter :
      (dir : List ℕ) (read : ℕ ⊎ List (ℕ ⊎ List ℕ))
      → scan_dir (visit files dir) read ≡ (listing read >>= (λ l. ok (filter (alone dir) (ids l))))
  unfolding scan_dir
  scan_dir-filter dir (inl code) = refl
  scan_dir-filter dir (inr entries) = scan-filter dir entries []

  -- For each directory that is there, the search reports the numbers of its character devices whose
  -- block device it lacks, in the order of the entries; or the error of the directory, or of the first
  -- entry that cannot be read. For a directory that is not there it reports nothing.
  pub detect_orphans_in_dir_lem :
      (dir : List ℕ)
      → detect_orphans_in_dir files dir ≡ (
          if files.exists dir
          then listing (files.read_dir dir) >>= (λ l. ok (filter (alone dir) (ids l)))
          else ok [])
  unfolding detect_orphans_in_dir
  detect_orphans_in_dir_lem dir = rw (scan_dir-filter dir (files.read_dir dir)) refl

  visit-dev :
      (name orphans : List ℕ)
      → visit files (chars "/dev") name orphans ≡ visit_dev files name orphans
  unfolding visit join parse_char_device_id
  visit-dev name orphans = elim (Option-cases (strip_prefix (chars "ublkc") name)) [
    | inl e ↦ rw (e, visit, parse_char_device_id, visit_dev) refl
    | inr (id, e) ↦
        rw (e, visit, parse_char_device_id, visit_dev)
          (elim (Option-cases (parse u32_limit id)) [
            | inl f ↦ rw f refl
            | inr (dev_id, f) ↦ rw f refl
          ])
  ]

  -- The search in `/dev` that the program makes and the search made for tests agree there, in every
  -- case and on every error.
  pub detect_orphaned_devices-dir :
      detect_orphaned_devices files ≡ detect_orphans_in_dir files (chars "/dev")
  unfolding detect_orphaned_devices detect_orphans_in_dir
  detect_orphaned_devices-dir =
      let same : visit_dev files ≡ visit files (chars "/dev") =
        fun_ext (λ name. fun_ext (λ orphans. sym (visit-dev name orphans))) in
      rw same refl
