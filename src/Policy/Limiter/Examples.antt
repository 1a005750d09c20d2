-- ===== src/Policy/Limiter/Examples.antt =====
-- The limiter's theorems at concrete inputs: 512 MB, one core, 100 processes (limiter.rs).
use duende.Prelude.{ℕ, ◌*◌, ◌/◌, ◌≡◌, ◌≢◌, refl, Option, none, some, List, [], ◌∷◌}
use duende.Prelude.Float.{whole}
use duende.Prelude.Disk.{Disk, log_disk}
use duende.Prelude.Text.{chars, chomp, join, trim, trim_end, trim_start, is_whitespace}
use duende.Prelude.Decimal.{print, parse_digits}
use duende.Policy.Limiter.{ResourceLimiter, Arithmetic, done, new, default_limits, apply, remove}

abbrev whole_div : Option ℕ → Option ℕ → Option ℕ
whole_div (some a) (some b) = some (a / b)
whole_div _ _ = none

abbrev whole_mul : Option ℕ → Option ℕ → Option ℕ
whole_mul (some a) (some b) = some (a * b)
whole_mul _ _ = none

abbrev whole_to_u64 : Option ℕ → ℕ
whole_to_u64 (some a) = a
whole_to_u64 none = 0

abbrev arithmetic : Arithmetic
arithmetic = record { f64 = whole; div = whole_div; mul = whole_mul; to_u64 = whole_to_u64 }

abbrev limiter : ResourceLimiter (Option ℕ)
unfolding default_limits
limiter = new (default_limits whole)

abbrev disk : Disk
disk = log_disk (chars "7\n19\n")

abbrev after_apply : List (List ℕ × List ℕ)
after_apply =
    (chars "/sys/fs/cgroup/duende-42/memory.max", chars "536870912")
    ∷ (chars "/sys/fs/cgroup/duende-42/memory.swap.max", chars "1073741824")
    ∷ (chars "/sys/fs/cgroup/duende-42/cpu.max", chars "100000 100000")
    ∷ (chars "/sys/fs/cgroup/duende-42/pids.max", chars "100")
    ∷ (chars "/sys/fs/cgroup/duende-42/cgroup.procs", chars "42")
    ∷ []

apply_test : apply disk arithmetic limiter 42 [] ≡ (done, after_apply)
unfolding apply limiter print join
apply_test = refl

remove_test : remove disk limiter 42 [] ≡ (
  done,
  (chars "/sys/fs/cgroup/cgroup.procs", chars "7")
      ∷ (chars "/sys/fs/cgroup/cgroup.procs", chars "19")
      ∷ [],
)
unfolding remove limiter print join trim_end trim_start is_whitespace chomp parse_digits
remove_test = refl

abbrev procs : List ℕ
procs = chars "7\n19\n"

procs_left : trim procs ≢ []
unfolding trim_end trim_start is_whitespace
procs_left e = absurd (cc)
