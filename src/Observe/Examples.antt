-- ===== src/Observe/Examples.antt =====
-- The theorems of the monitor at concrete inputs: a process called "a) b" that sleeps
-- (monitor.rs).
use duende.Prelude.{ℕ, ◌≡◌, refl, List, [], ◌∷◌, ◌++◌, arith, ltb, All, ◌/◌, ◌*◌, if◌then◌else◌}
use duende.Prelude.Decimal.{print}
use duende.Prelude.Text.{is_whitespace, unwords}
use duende.Prelude.Text.Splitting.{IsWord, Plain}
use duende.Observe.Proc.{sleeping, ok, parse_stat_content, state_of_letter}
use duende.Observe.Proc.Stat.{Fields, texts, parse_stat_content-unwords}
use duende.Observe.Monitor.{Arithmetic, Reading, new}
use duende.Observe.Monitor.History.{collect_all, taken, last_n, history-collect_all}

abbrev nought : List ℕ
nought = 48 ∷ []

abbrev fields : Fields
fields = record {
  letter = 83 ∷ [];
  f1 = nought;
  f2 = nought;
  f3 = nought;
  f4 = nought;
  f5 = nought;
  f6 = nought;
  f7 = nought;
  f8 = nought;
  f9 = nought;
  f10 = nought;
  utime = 7;
  stime = 5;
  f13 = nought;
  f14 = nought;
  f15 = nought;
  f16 = nought;
  threads = 2;
  f18 = nought;
  f19 = nought;
  others = [];
}

-- The codes of "1 (a) b".
abbrev before : List ℕ
before = 49 ∷ 32 ∷ 40 ∷ 97 ∷ 41 ∷ 32 ∷ 98 ∷ []

letter-IsWord : (c : ℕ) → Plain c → IsWord (c ∷ [])
letter-IsWord c p = (ground arith, (p, tt))

fields-IsWord : All IsWord (texts fields)
unfolding is_whitespace print
fields-IsWord =
    let s = letter-IsWord 83 (refl, omega arith) in
    let o = letter-IsWord 48 (refl, omega arith) in
    let seven = letter-IsWord 55 (refl, omega arith) in
    let five = letter-IsWord 53 (refl, omega arith) in
    let two = letter-IsWord 50 (refl, omega arith) in
    (
      s,
      (
        o,
        (
          o,
          (
            o,
            (
              o,
              (
                o,
                (o, (o, (o, (o, (o, (seven, (five, (o, (o, (o, (o, (two, (o, (o, tt)))))))))))))),
              ),
            ),
          ),
        ),
      ),
    )

parse_stat_content-unwords_example :
    parse_stat_content (before ++ (41 ∷ 32 ∷ unwords (texts fields)))
    ≡ ok (record { state = sleeping; utime = 7; stime = 5; num_threads = 2 })
unfolding state_of_letter
parse_stat_content-unwords_example =
    parse_stat_content-unwords before fields fields-IsWord (omega arith) (omega arith) (omega arith)

-- Whole seconds and whole percentages.
abbrev rough : Arithmetic
rough = record {
  Carrier = ℕ;
  of_u64 = λ n. n;
  as_secs_f64 = λ n. n / 1000000000;
  milli = 1;
  lt = ltb;
  div = λ a b. a / b;
  mul = λ a b. a * b;
  maximum = λ a b. if ltb a b then b else a;
  clk_tck = 100;
}

abbrev reading : ℕ → Reading rough
unfolding unwords
reading now = record {
  now = now;
  pid = 1;
  stat = ok (before ++ (41 ∷ 32 ∷ unwords (texts fields)));
  statm = ok (57 ∷ 32 ∷ 51 ∷ []);
  io = ok [];
}

abbrev readings : List (Reading rough)
unfolding reading
readings = reading 0 ∷ reading 2000000000 ∷ []

history-collect_all_example :
    (collect_all rough readings (new 4096 0 1)).history
    ≡ last_n 1 (taken rough readings (new 4096 0 1))
history-collect_all_example = history-collect_all rough readings 4096 0 1
