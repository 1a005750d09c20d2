-- ===== src/Observe/Tracer/Patterns.antt =====
-- crates/duende-observe/src/tracer.rs: the score of a call's frequency, and the patterns in the
-- counts. A set of counts is a list in the map's order.
use duende.Prelude.{
  ℕ, ◌+◌, ◌&&◌, Option, none, some, List, [], ◌∷◌, ◌++◌, length, ltb, ◌==◌, if◌then◌else◌,
}
use duende.Prelude.Float.{F64}
use duende.Prelude.Text.{chars, same_text}

pub data AnomalyKind : Type 0 where
  latency_spike error_burst resource_exhaustion : AnomalyKind

-- The description is what the message is made of: the name, its count and the score.
pub record Anomaly (F : Type 0) : Type 0 where
  pub kind : AnomalyKind
  pub z_score : F
  pub syscall : List ℕ
  pub count : ℕ

-- The description is made of the percentage and the count.
pub record AntiPattern : Type 0 where
  pub name : List ℕ
  pub severity : ℕ
  pub percent : ℕ
  pub count : ℕ

-- The arithmetic of `f64`, and its literals: so many thousandths.
pub record Arithmetic : Type 1 where
  pub f64 : F64
  open f64 use {Carrier}
  pub add : Carrier → Carrier → Carrier
  pub sub : Carrier → Carrier → Carrier
  pub mul : Carrier → Carrier → Carrier
  pub div : Carrier → Carrier → Carrier
  pub sqrt : Carrier → Carrier
  pub abs : Carrier → Carrier
  pub thousandths : ℕ → Carrier
  pub to_u32 : Carrier → ℕ

unfoldable pub count_of : List ℕ → List (List ℕ × ℕ) → ℕ
count_of name [] = 0
count_of name ((key, n) ∷ rest) = if same_text key name then n else count_of name rest

unfoldable pub total : List (List ℕ × ℕ) → ℕ
total [] = 0
total ((key, n) ∷ rest) = n + total rest

abbrev pub poll_count : List (List ℕ × ℕ) → ℕ
unfolding count_of
poll_count counts =
    count_of (chars "poll") counts
    + count_of (chars "select") counts
    + count_of (chars "epoll_wait") counts
    + count_of (chars "epoll_pwait") counts
    + count_of (chars "pselect6") counts

abbrev pub mem_count : List (List ℕ × ℕ) → ℕ
unfolding count_of
mem_count counts =
    count_of (chars "brk") counts
    + count_of (chars "mmap") counts
    + count_of (chars "munmap") counts

module _ (a : Arithmetic) where
  open a use {f64, add, sub, mul, div, sqrt, abs, thousandths, to_u32}
  open f64 use {Carrier, of_nat, lt}

  abbrev pub squares : Carrier → List (List ℕ × ℕ) → Carrier → Carrier
  squares expected [] acc = acc
  squares expected ((key, n) ∷ rest) acc =
      let diff = sub (of_nat n) expected in squares expected rest (add acc (mul diff diff))

  abbrev pub expected_freq : List (List ℕ × ℕ) → Carrier
  unfolding total
  expected_freq counts = div (of_nat (total counts)) (of_nat (length counts))

  abbrev pub std_dev : List (List ℕ × ℕ) → Carrier
  unfolding expected_freq
  std_dev counts =
      sqrt (div (squares (expected_freq counts) counts (of_nat 0)) (of_nat (length counts)))

  abbrev pub z_score_of : List (List ℕ × ℕ) → ℕ → Carrier
  unfolding expected_freq std_dev
  z_score_of counts count = div (sub (of_nat count) (expected_freq counts)) (std_dev counts)

  abbrev pub scored : Carrier → Carrier → List ℕ → ℕ → Option (Anomaly Carrier)
  scored threshold z syscall count =
      if lt threshold (abs z)
      then some record {
        kind = if lt (of_nat 0) z then latency_spike else resource_exhaustion;
        z_score = z;
        syscall = syscall;
        count = count;
      }
      else none

  -- A pattern is reported when its share of the calls and its number are above their limits.
  abbrev pub pattern_if : List ℕ → ℕ → ℕ → ℕ → ℕ → ℕ → List AntiPattern
  pattern_if name severity count all share limit =
      let ratio = div (of_nat count) (of_nat all) in
      if lt (thousandths share) ratio && ltb limit count
      then record {
        name = name;
        severity = severity;
        percent = to_u32 (mul ratio (of_nat 100));
        count = count;
      }
        ∷ []
      else []

  unfoldable pub detect_anti_patterns : List (List ℕ × ℕ) → List AntiPattern
  unfolding total poll_count mem_count count_of
  detect_anti_patterns counts =
      let all = total counts in
      if all == 0
      then []
      else pattern_if (chars "BusyPolling") 3 (poll_count counts) all 500 100
        ++ (pattern_if (chars "LockContention") 4 (count_of (chars "futex") counts) all 300 100
            ++ pattern_if (chars "MemoryChurn") 3 (mem_count counts) all 200 50)
