-- ===== src/Observe/Tracer/Examples.antt =====
-- The tracer's theorems at concrete readings: two of `read`, one of a process in user space
-- (tracer.rs).
use duende.Prelude.{ℕ, ◌+◌, ◌*◌, ◌-◌, ◌/◌, ◌≡◌, refl, true, Option, none, some, List, [], ◌∷◌}
use duende.Prelude.Float.{whole}
use duende.Prelude.Text.{chars}
use duende.Prelude.Decimal.{print}
use duende.Observe.Tracer.Patterns.{Arithmetic, count_of, total}
use duende.Observe.Tracer.{new, attach, build_critical_path}
use duende.Observe.Tracer.Counting.{collect_all, occurrences, samples, collect_all-attach}

abbrev lift : (ℕ → ℕ → ℕ) → Option ℕ → Option ℕ → Option ℕ
lift f (some a) (some b) = some (f a b)
lift f _ _ = none

abbrev number : Option ℕ → ℕ
number (some a) = a
number none = 0

abbrev arithmetic : Arithmetic
arithmetic = record {
  f64 = whole;
  add = lift (λ a b. a + b);
  sub = lift (λ a b. a - b);
  mul = lift (λ a b. a * b);
  div = lift (λ a b. a / b);
  sqrt = λ a. a;
  abs = λ a. a;
  thousandths = λ n. some (n / 1000);
  to_u32 = number;
}

abbrev readings : List (Option (List ℕ) × Option (List ℕ))
readings =
    (some (chars "0 0x3 0x7 sp pc\n"), some (chars "pipe_read"))
    ∷ (some (chars "running\n"), some (chars "0"))
    ∷ (none, none)
    ∷ (some (chars "0 0x3 0x7 sp pc\n"), none)
    ∷ []

collect_all-attach_example :
    (count_of
        (chars "read")
        (collect_all arithmetic readings
          (attach arithmetic true 42 0 (new arithmetic)).1).syscall_counts
      ≡ occurrences (chars "read") readings)
    × (total
          (collect_all arithmetic readings
            (attach arithmetic true 42 0 (new arithmetic)).1).syscall_counts
        ≡ (collect_all arithmetic readings
            (attach arithmetic true 42 0 (new arithmetic)).1).sample_count)
    × ((collect_all arithmetic readings
          (attach arithmetic true 42 0 (new arithmetic)).1).sample_count
        ≡ samples readings)
    × ((collect_all arithmetic readings
          (attach arithmetic true 42 0 (new arithmetic)).1).attached_pid
        ≡ some 42)
collect_all-attach_example =
    collect_all-attach arithmetic readings (new arithmetic) (chars "read") 42 0

abbrev counts : List (List ℕ × ℕ)
counts = (chars "read", 2) ∷ (chars "futex", 9) ∷ (chars "brk", 4) ∷ []

critical_path_test :
    build_critical_path counts ≡ chars "futex (9)" ∷ chars "brk (4)" ∷ chars "read (2)" ∷ []
unfolding build_critical_path print
critical_path_test = refl
