-- ===== src/Ublk/Devices/Cleaning.antt =====
-- What the removal of orphans sends, counts and returns (control.rs).
use duende.Prelude.{
  ℕ, zero, suc, ◌+◌, ◌-◌, ◌≡◌, refl, sym, ap, ◌∙◌, not, Bool, true, false, Option, some, List, [],
  ◌∷◌, ◌++◌, filter, arith, Bool-cases, inl, inr,
}
use mathlib.Core.List.{append_assoc, append-nil}
use duende.Ublk.Error.{Result, ok, err}
use duende.Ublk.Sys.{ublk_u_cmd_stop_dev, ublk_u_cmd_del_dev}
use duende.Ublk.Control.{Ring, Sqe, device_sqe, force_delete}
use duende.Ublk.Control.Loop.{force_delete_returns}
use duende.Ublk.Control.Commands.{Accepts, force_delete-sent, force_delete-Accepts}
use duende.Ublk.Devices.{
  Files, detect_orphaned_devices, block_device_exists, count, unopened, unwrap_or_default, clean,
  clean_range, cleanup_device_range, clean_found, cleanup_orphaned_devices,
}

-- A stop and a deletion for each device.
abbrev pub commands : List ℕ → List Sqe
commands [] = []
commands (dev_id ∷ ids) =
    device_sqe ublk_u_cmd_stop_dev dev_id ∷ device_sqe ublk_u_cmd_del_dev dev_id ∷ commands ids

abbrev pub range : ℕ → ℕ → List ℕ
range start zero = []
range start (suc n) = start ∷ range (start + 1) n

-- How many of the answers are that a device was deleted.
abbrev pub gone : List (Result Bool) → ℕ
gone [] = 0
gone (ok true ∷ rs) = suc (gone rs)
gone (ok false ∷ rs) = gone rs
gone (err e ∷ rs) = gone rs

none_gone : (cleaned : ℕ) → cleaned ≡ gone [] + cleaned
none_gone cleaned = omega arith

gone-count :
    (r : Result Bool) (rs : List (Result Bool)) (cleaned : ℕ)
    → gone rs + count r cleaned ≡ gone (r ∷ rs) + cleaned
gone-count (ok true) rs cleaned = omega arith
gone-count (ok false) rs cleaned = refl
gone-count (err e) rs cleaned = refl

module _ (u : Ring) where
  -- The answers of the deletions, one after the other.
  abbrev pub Deleted : List ℕ → u.State → List (Result Bool) → u.State → Type 0
  Deleted [] s [] t = t ≡ s
  Deleted [] s (r ∷ rs) t = ⊥
  Deleted (dev_id ∷ ids) s [] t = ⊥
  Deleted (dev_id ∷ ids) s (r ∷ rs) t =
      (s' : u.State) × (force_delete u dev_id s ≡ some (r, s')) × Deleted ids s' rs t

  -- The devices are tried, each of them, those whose deletion says that it was there are counted, and
  -- no command is sent but theirs.
  abbrev pub Cleaned : List ℕ → ℕ → u.State → Option (Result ℕ × u.State) → Type 0
  Cleaned ids cleaned s o =
      (rs : List (Result Bool)) × (t : u.State) × Deleted ids s rs t
      × (o ≡ some (ok (gone rs + cleaned), t))
      × (u.sent t ≡ u.sent s ++ commands ids)

  Cleaned-step :
      (dev_id : ℕ) (ids : List ℕ) (cleaned : ℕ) (s s' : u.State) (r : Result Bool)
      (o : Option (Result ℕ × u.State))
      → Accepts u s
      → force_delete u dev_id s ≡ some (r, s')
      → Cleaned ids (count r cleaned) s' o
      → Cleaned (dev_id ∷ ids) cleaned s o
  Cleaned-step dev_id ids cleaned s s' r o fits p (rs, t, each, q, m) = (
    r ∷ rs,
    t,
    (s', p, each),
    q ∙ ap (λ (n : ℕ). some (ok n, t)) (gone-count r rs cleaned),
    m
        ∙ ap (λ l. l ++ commands ids) (force_delete-sent u dev_id s s' r fits p)
        ∙ append_assoc (u.sent s) (commands (dev_id ∷ [])) (commands ids),
  )

  clean-Cleaned :
      (ids : List ℕ) (cleaned : ℕ) (s : u.State)
      → Accepts u s
      → Cleaned ids cleaned s (clean u ids cleaned s)
  unfolding clean
  clean-Cleaned [] cleaned s fits =
      ([], s, refl, ap (λ (n : ℕ). some (ok n, s)) (none_gone cleaned), sym (append-nil (u.sent s)))
  clean-Cleaned (dev_id ∷ ids) cleaned s fits =
      let (r, s', p) = force_delete_returns u dev_id s in
      let rest =
        clean-Cleaned ids (count r cleaned) s' (force_delete-Accepts u dev_id s s' r fits p) in
      Cleaned-step dev_id ids cleaned s s' r (clean u (dev_id ∷ ids) cleaned s) fits p
        (rw (p, clean) rest)

  clean_range-Cleaned :
      (files : Files) (n start cleaned : ℕ) (s : u.State)
      → Accepts u s
      → Cleaned
          (filter (λ id. not (block_device_exists files id)) (range start n))
          cleaned
          s
          (clean_range u files n start cleaned s)
  unfolding clean_range
  clean_range-Cleaned files zero start cleaned s fits =
      ([], s, refl, ap (λ (n : ℕ). some (ok n, s)) (none_gone cleaned), sym (append-nil (u.sent s)))
  clean_range-Cleaned files (suc n) start cleaned s fits =
      elim (Bool-cases (block_device_exists files start)) [
        | inl there ↦
            let rest = clean_range-Cleaned files n (start + 1) cleaned s fits in
            rw (there, clean_range, filter) rest
        | inr absent ↦
            let (r, s', p) = force_delete_returns u start s in
            let fits' = force_delete-Accepts u start s s' r fits p in
            let rest = clean_range-Cleaned files n (start + 1) (count r cleaned) s' fits' in
            let spared = filter (λ id. not (block_device_exists files id)) (range (start + 1) n) in
            let o = clean_range u files (suc n) start cleaned s in
            rw (absent, filter)
              (Cleaned-step start spared cleaned s s' r o fits p
                (rw (absent, clean_range) (rw p rest)))
      ]

  -- Where the search has found orphans, the control device is opened, and its ring has room for an
  -- entry and accepts each submission: a stop and a deletion are sent for each of them, in order and
  -- whatever the commands' own outcomes, and no other command; and the result is the number of the
  -- deletions that report success.
  pub cleanup_orphaned_devices-orphans :
      (files : Files) (dev_id : ℕ) (ids : List ℕ) (s s' : u.State)
      → detect_orphaned_devices files ≡ ok (dev_id ∷ ids)
      → Accepts u s'
      → Cleaned (dev_id ∷ ids) 0 s' (cleanup_orphaned_devices u files (ok s') s)
  unfolding cleanup_orphaned_devices
  cleanup_orphaned_devices-orphans files dev_id ids s s' e fits =
      rw (e, cleanup_orphaned_devices) (clean-Cleaned (dev_id ∷ ids) 0 s' fits)

  -- A range of numbers is cleaned likewise, but for the numbers that have a block device: to these no
  -- command is sent.
  pub cleanup_device_range-spares :
      (files : Files) (start end : ℕ) (s s' : u.State)
      → Accepts u s'
      → Cleaned
          (filter (λ id. not (block_device_exists files id)) (range start (end - start)))
          0
          s'
          (cleanup_device_range u files (ok s') s start end)
  unfolding cleanup_device_range
  cleanup_device_range-spares files start end s s' fits =
      clean_range-Cleaned files (end - start) start 0 s' fits

  abbrev Returns : Option (Result ℕ × u.State) → Type 0
  Returns o = (r : Result ℕ) × (t : u.State) × (o ≡ some (r, t))

  clean-Returns : (ids : List ℕ) (cleaned : ℕ) (s : u.State) → Returns (clean u ids cleaned s)
  unfolding clean
  clean-Returns [] cleaned s = (ok cleaned, s, refl)
  clean-Returns (dev_id ∷ ids) cleaned s =
      let (r, s', p) = force_delete_returns u dev_id s in
      let (n, t, q) = clean-Returns ids (count r cleaned) s' in (n, t, rw (p, clean) q)

  clean_range-Returns :
      (files : Files) (n start cleaned : ℕ) (s : u.State)
      → Returns (clean_range u files n start cleaned s)
  unfolding clean_range
  clean_range-Returns files zero start cleaned s = (ok cleaned, s, refl)
  clean_range-Returns files (suc n) start cleaned s =
      elim (Bool-cases (block_device_exists files start)) [
        | inl there ↦
            let (r, t, q) = clean_range-Returns files n (start + 1) cleaned s in
            (r, t, rw (there, clean_range) q)
        | inr absent ↦
            let (r, s', p) = force_delete_returns u start s in
            let (n', t, q) = clean_range-Returns files n (start + 1) (count r cleaned) s' in
            (n', t, rw (absent, clean_range) (rw p q))
      ]

  clean_found-Returns :
      (files : Files) (opened : Result u.State) (s : u.State) (ids : List ℕ)
      → Returns (clean_found u files opened s ids)
  unfolding clean_found cleanup_device_range
  clean_found-Returns files (err e) s [] = (unopened e, s, refl)
  clean_found-Returns files (err e) s (dev_id ∷ ids) = (unopened e, s, refl)
  clean_found-Returns files (ok s') s [] = clean_range-Returns files 8 0 0 s'
  clean_found-Returns files (ok s') s (dev_id ∷ ids) = clean-Returns (dev_id ∷ ids) 0 s'

  -- The removal ends, whatever the file system, the control device and the ring do.
  pub cleanup_orphaned_devices_returns :
      (files : Files) (opened : Result u.State) (s : u.State)
      → (r : Result ℕ) × (t : u.State) × (cleanup_orphaned_devices u files opened s ≡ some (r, t))
  unfolding cleanup_orphaned_devices
  cleanup_orphaned_devices_returns files opened s =
      clean_found-Returns files opened s (unwrap_or_default (detect_orphaned_devices files))
