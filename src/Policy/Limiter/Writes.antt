-- ===== src/Policy/Limiter/Writes.antt =====
-- What `apply` writes, and in which order (limiter.rs).
use mathlib.Core.List.{Sublistᴰ}
use duende.Prelude.{ℕ, ◌≡◌, ◌⊎◌, true, false, none, some, List, [], ◌∷◌, ◌++◌, ltb}
use duende.Prelude.Disk.{Disk}
use duende.Prelude.Decimal.{to_string}
use duende.Policy.Limiter.{
  ResourceLimits, Outcome, done, failed, LimitError, create_failed, move_failed, Arithmetic,
  ◌then_do◌, put_if, move, cpu_max_value,
}
use duende.Policy.Limiter.Steps.{entry, when, Puts}

-- The files and texts of the limits that are set: those above 0.
abbrev pub settings :
    (a : Arithmetic) → ResourceLimits a.f64.Carrier → List ℕ → List (List ℕ × List ℕ)
settings a limits dir =
    ((when (ltb 0 limits.memory_bytes) (entry dir "memory.max" (to_string limits.memory_bytes))
        ++ when (ltb 0 limits.memory_swap_bytes)
            (entry dir "memory.swap.max" (to_string limits.memory_swap_bytes)))
      ++ when (a.f64.lt (a.f64.of_nat 0) limits.cpu_quota_percent)
          (entry dir "cpu.max" (cpu_max_value a limits)))
    ++ when (ltb 0 limits.pids_max) (entry dir "pids.max" (to_string limits.pids_max))

module _ (d : Disk) where
  -- Behind the settings: the move, and what was written since a log of writes.
  abbrev pub Moved :
      List (List ℕ × List ℕ)
      → d.State
      → ℕ
      → List (List ℕ × List ℕ)
      → List ℕ × List ℕ
      → Outcome × d.State
      → Type 0
  Moved before t pid ws last o =
      ((d.write last.0 last.1 t ≡ (none, o.1))
        × (o.0 ≡ done)
        × (d.written o.1 ≡ before ++ (ws ++ (last ∷ []))))
      ⊎ ((code : ℕ) × (d.write last.0 last.1 t ≡ (some code, o.1))
          × (o.0 ≡ failed (move_failed pid code))
          × (d.written o.1 ≡ before ++ ws))

  -- The settings, from a state in which the directory is there, and the move if none has failed.
  abbrev pub Went :
      List (List ℕ × List ℕ)
      → d.State
      → ℕ
      → List (List ℕ × List ℕ)
      → List ℕ × List ℕ
      → Outcome × d.State
      → Type 0
  Went before s pid l last o =
      (ws : List (List ℕ × List ℕ)) × Sublistᴰ ws l
      × (((e : LimitError) × Puts d s l (failed e) o.1 ws
            × (o.0 ≡ failed e)
            × (d.written o.1 ≡ before ++ ws))
          ⊎ ((t : d.State) × Puts d s l done t ws × Moved before t pid ws last o))

  -- The directory is there, or is made, or cannot be made.
  abbrev pub Applied :
      ℕ → List ℕ → List (List ℕ × List ℕ) → List ℕ × List ℕ → d.State → Outcome × d.State → Type 0
  Applied pid dir l last s o =
      ((d.exists dir s ≡ true) × Went (d.written s) s pid l last o)
      ⊎ ((d.exists dir s ≡ false)
          × (((t : d.State) × (d.create_dir_all dir s ≡ (none, t))
                × Went (d.written s) t pid l last o)
              ⊎ ((code : ℕ) × (t : d.State) × (d.create_dir_all dir s ≡ (some code, t))
                  × (o ≡ (failed (create_failed code), t))
                  × (d.written t ≡ d.written s))))

  module _ (a : Arithmetic) where
    -- `apply` behind the making of the directory.
    abbrev apply_from :
        ResourceLimits a.f64.Carrier → ℕ → List ℕ → Outcome × d.State → Outcome × d.State
    apply_from limits pid dir o =
        let p =
          ◌then_do◌ d o (
            put_if d (ltb 0 limits.memory_bytes) "memory.max" (to_string limits.memory_bytes)
              dir) in
        let q = ◌then_do◌ d p (
          put_if d (ltb 0 limits.memory_swap_bytes) "memory.swap.max"
            (to_string limits.memory_swap_bytes) dir) in
        let z = ◌then_do◌ d q (
          put_if d (a.f64.lt (a.f64.of_nat 0) limits.cpu_quota_percent) "cpu.max"
            (cpu_max_value a limits) dir) in
        ◌then_do◌ d
          (◌then_do◌ d z
            (put_if d (ltb 0 limits.pids_max) "pids.max" (to_string limits.pids_max) dir))
          (move d pid dir)
