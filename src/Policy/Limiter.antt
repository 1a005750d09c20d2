-- ===== src/Policy/Limiter.antt =====
-- crates/duende-policy/src/limiter.rs, as compiled for Linux: the limits of a process, written to the
-- files of its control group.
pub mod Steps
pub mod Writes
pub mod Removal
mod Examples
use duende.Prelude.{
  ℕ, zero, suc, ◌≡◌, Bool, true, false, ◌||◌, Option, none, some, String, List, [], ◌∷◌, ◌++◌, ltb,
  if◌then◌else◌,
}
use duende.Prelude.Float.{F64}
use duende.Prelude.Disk.{Disk}
use duende.Prelude.Text.{chars, join, trim, is_whitespace, lines_from}
use duende.Prelude.Decimal.{to_string, parse}

pub record ResourceLimits (F : Type 0) : Type 0 where
  pub memory_bytes : ℕ
  pub memory_swap_bytes : ℕ
  pub cpu_quota_percent : F
  pub cpu_period_us : ℕ
  pub io_read_bps : ℕ
  pub io_write_bps : ℕ
  pub pids_max : ℕ

pub record ResourceLimiter (F : Type 0) : Type 0 where
  pub limits : ResourceLimits F
  pub cgroup_prefix : List ℕ
  pub cgroup_base : List ℕ

-- The step that failed, and its error code: the texts of `PolicyError::ResourceLimit`.
pub data LimitError : Type 0 where
  create_failed : ℕ → LimitError
  set_failed : String → ℕ → LimitError
  move_failed : ℕ → ℕ → LimitError
  remove_failed : ℕ → LimitError

pub data Outcome : Type 0 where
  done : Outcome
  failed : LimitError → Outcome

-- `(a / b) * c as u64` and the like, of the standard library.
pub record Arithmetic : Type 1 where
  pub f64 : F64
  open f64 use {Carrier}
  pub div : Carrier → Carrier → Carrier
  pub mul : Carrier → Carrier → Carrier
  pub to_u64 : Carrier → ℕ

unfoldable pub default_limits : (f : F64) → ResourceLimits f.Carrier
default_limits f = record {
  memory_bytes = 536870912;
  memory_swap_bytes = 1073741824;
  cpu_quota_percent = f.of_nat 100;
  cpu_period_us = 100000;
  io_read_bps = 0;
  io_write_bps = 0;
  pids_max = 100;
}

module _ {F : Type 0} where
  abbrev pub with_memory : ResourceLimits F → ℕ → ResourceLimits F
  with_memory limits amount = record limits { memory_bytes = amount }

  abbrev pub with_cpu : ResourceLimits F → F → ResourceLimits F
  with_cpu limits percent = record limits { cpu_quota_percent = percent }

  abbrev pub with_pids : ResourceLimits F → ℕ → ResourceLimits F
  with_pids limits maximum = record limits { pids_max = maximum }

  abbrev pub with_io : ResourceLimits F → ℕ → ℕ → ResourceLimits F
  with_io limits read_bps write_bps = record limits {
    io_read_bps = read_bps;
    io_write_bps = write_bps;
  }

  abbrev pub new : ResourceLimits F → ResourceLimiter F
  new limits = record {
    limits = limits;
    cgroup_prefix = chars "duende";
    cgroup_base = chars "/sys/fs/cgroup";
  }

  abbrev pub with_cgroup_prefix : ResourceLimiter F → List ℕ → ResourceLimiter F
  with_cgroup_prefix r text = record r { cgroup_prefix = text }

  abbrev pub with_cgroup_base : ResourceLimiter F → List ℕ → ResourceLimiter F
  with_cgroup_base r base = record r { cgroup_base = base }

  abbrev pub set_limits : ResourceLimiter F → ResourceLimits F → ResourceLimiter F
  set_limits r limits = record r { limits = limits }

  unfoldable pub cgroup_path : ResourceLimiter F → ℕ → List ℕ
  cgroup_path r pid = join r.cgroup_base (r.cgroup_prefix ++ (45 ∷ to_string pid))

module _ (a : Arithmetic) where
  open a use {f64, div, mul, to_u64}
  open f64 use {Carrier, of_nat}

  abbrev pub quota_us : ResourceLimits Carrier → ℕ
  quota_us limits =
      to_u64 (mul (div limits.cpu_quota_percent (of_nat 100)) (of_nat limits.cpu_period_us))

  -- "quota period"
  abbrev pub cpu_max_value : ResourceLimits Carrier → List ℕ
  cpu_max_value limits = to_string (quota_us limits) ++ (32 ∷ to_string limits.cpu_period_us)

module _ (d : Disk) where
  -- A failure ends the chain.
  infixl 5 ◌then_do◌
  abbrev pub ◌then_do◌ : Outcome × d.State → (d.State → Outcome × d.State) → Outcome × d.State
  (failed e, s) then_do next = (failed e, s)
  (done, s) then_do next = next s

  abbrev pub checked : (ℕ → LimitError) → Option ℕ × d.State → Outcome × d.State
  checked e (none, s) = (done, s)
  checked e (some code, s) = (failed (e code), s)

  -- The file of a limit is written if it is there.
  unfoldable pub put_limit : String → List ℕ → List ℕ → d.State → Outcome × d.State
  unfolding join
  put_limit name text dir s =
      if d.exists (join dir (chars name)) s
      then checked (set_failed name) (d.write (join dir (chars name)) text s)
      else (done, s)

  -- A limit that is not above 0 is not set.
  abbrev pub put_if : Bool → String → List ℕ → List ℕ → d.State → Outcome × d.State
  unfolding put_limit
  put_if above name text dir s = if above then put_limit name text dir s else (done, s)

  unfoldable pub create : List ℕ → d.State → Outcome × d.State
  create dir s =
      if d.exists dir s then (done, s) else checked create_failed (d.create_dir_all dir s)

  unfoldable pub move : ℕ → List ℕ → d.State → Outcome × d.State
  unfolding join
  move pid dir s =
      checked (move_failed pid) (d.write (join dir (chars "cgroup.procs")) (to_string pid) s)

  module _ (a : Arithmetic) where
    open a use {f64}
    open f64 use {Carrier, of_nat, lt}

    -- For limits on I/O the code only logs that it sets none.
    unfoldable pub apply : ResourceLimiter Carrier → ℕ → d.State → Outcome × d.State
    unfolding cgroup_path create put_if move
    apply r pid s =
        let dir = cgroup_path r pid in
        let limits = r.limits in
        create dir s
        then_do put_if (ltb 0 limits.memory_bytes) "memory.max" (to_string limits.memory_bytes) dir
        then_do put_if (ltb 0 limits.memory_swap_bytes) "memory.swap.max"
            (to_string limits.memory_swap_bytes) dir
        then_do put_if (lt (of_nat 0) limits.cpu_quota_percent) "cpu.max" (cpu_max_value a limits)
            dir
        then_do put_if (ltb 0 limits.pids_max) "pids.max" (to_string limits.pids_max) dir
        then_do move pid dir

  -- The lines that are numbers are written to the base's file; a failure is ignored.
  unfoldable pub move_back : List ℕ → List (List ℕ) → d.State → d.State
  unfolding parse
  move_back parent [] s = s
  move_back parent (line ∷ rest) s = elim (parse 4294967296 (trim line)) [
    | none ↦ move_back parent rest s
    | some pid ↦ move_back parent rest (d.write parent (to_string pid) s).1
  ]

  abbrev pub move_lines : List ℕ → List ℕ → d.State → d.State
  unfolding move_back lines_from
  move_lines parent procs s = elim (trim procs) [
    | [] ↦ s
    | c ∷ cs ↦ move_back parent (lines_from [] procs) s
  ]

  unfoldable pub move_all : List ℕ → List ℕ → d.State → d.State
  unfolding move_lines join
  move_all base dir s = elim (d.read_to_string (join dir (chars "cgroup.procs")) s) [
    | none ↦ s
    | some procs ↦ move_lines (join base (chars "cgroup.procs")) procs s
  ]

  unfoldable pub remove : {F : Type 0} → ResourceLimiter F → ℕ → d.State → Outcome × d.State
  unfolding cgroup_path move_all
  remove r pid s =
      let dir = cgroup_path r pid in
      if d.exists dir s
      then checked remove_failed (d.remove_dir dir (move_all r.cgroup_base dir s))
      else (done, s)

  unfoldable pub cgroups_v2_available : {F : Type 0} → ResourceLimiter F → d.State → Bool
  unfolding join
  cgroups_v2_available r s = d.exists (join r.cgroup_base (chars "cgroup.controllers")) s
