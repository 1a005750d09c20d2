-- ===== src/Observe/Proc/Stat.antt =====
-- The parser of /proc/{pid}/stat reads back what the kernel writes, whatever the process is called
-- (monitor.rs).
use duende.Prelude.{
  ℕ, ◌<◌, ◌≡◌, refl, ◌∙◌, ap, none, List, [], ◌∷◌, ◌++◌, arith, u32_mod, u64_mod, All,
}
use duende.Prelude.Decimal.{to_string, parse-to_string}
use duende.Prelude.Text.{split_whitespace, unwords, after_last}
use duende.Prelude.Text.Splitting.{
  IsWord, split_whitespace-unwords, after_last-unwords, after_last_skip, after_last-append,
}
use duende.Observe.Proc.{ok, panics, state_of, parse_fields, parse_stat_content}

-- The fields behind the name: the state's letter, ten more, the two times, four more, the number of
-- threads, two more and any others.
pub record Fields : Type 0 where
  pub letter : List ℕ
  pub f1 : List ℕ
  pub f2 : List ℕ
  pub f3 : List ℕ
  pub f4 : List ℕ
  pub f5 : List ℕ
  pub f6 : List ℕ
  pub f7 : List ℕ
  pub f8 : List ℕ
  pub f9 : List ℕ
  pub f10 : List ℕ
  pub utime : ℕ
  pub stime : ℕ
  pub f13 : List ℕ
  pub f14 : List ℕ
  pub f15 : List ℕ
  pub f16 : List ℕ
  pub threads : ℕ
  pub f18 : List ℕ
  pub f19 : List ℕ
  pub others : List (List ℕ)

abbrev pub texts : Fields → List (List ℕ)
texts x =
    x.letter
    ∷ x.f1
    ∷ x.f2
    ∷ x.f3
    ∷ x.f4
    ∷ x.f5
    ∷ x.f6
    ∷ x.f7
    ∷ x.f8
    ∷ x.f9
    ∷ x.f10
    ∷ to_string x.utime
    ∷ to_string x.stime
    ∷ x.f13
    ∷ x.f14
    ∷ x.f15
    ∷ x.f16
    ∷ to_string x.threads
    ∷ x.f18
    ∷ x.f19
    ∷ x.others

parse_fields-texts :
    (x : Fields)
    → x.utime < u64_mod
    → x.stime < u64_mod
    → x.threads < u32_mod
    → parse_fields (texts x)
      ≡ ok (record {
        state = state_of x.letter;
        utime = x.utime;
        stime = x.stime;
        num_threads = x.threads;
      })
unfolding parse_fields
parse_fields-texts x u s t =
    rw
      (
        parse-to_string u64_mod x.utime u (omega arith),
        parse-to_string u64_mod x.stime s (omega arith),
        parse-to_string u32_mod x.threads t (omega arith),
      )
      (ground arith)

parse_stat-behind :
    (before text : List ℕ)
    → after_last 41 text ≡ none
    → parse_stat_content (before ++ (41 ∷ 32 ∷ text)) ≡ parse_fields (split_whitespace text)
unfolding parse_stat_content
parse_stat-behind before text e =
    let f = after_last-append 41 before (32 ∷ text) (after_last_skip 32 text (omega arith) e) in
    rw f refl

-- A content of any text, a closing parenthesis, a space and twenty or more words without
-- parentheses, of which the twelfth, the thirteenth and the eighteenth are numbers in the range of
-- their types, parses to those numbers and the state of the first word's letter. The text before,
-- where the process's name stands, may hold parentheses and spaces.
pub parse_stat_content-unwords :
    (before : List ℕ) (x : Fields)
    → All IsWord (texts x)
    → x.utime < u64_mod
    → x.stime < u64_mod
    → x.threads < u32_mod
    → parse_stat_content (before ++ (41 ∷ 32 ∷ unwords (texts x)))
      ≡ ok (record {
        state = state_of x.letter;
        utime = x.utime;
        stime = x.stime;
        num_threads = x.threads;
      })
parse_stat_content-unwords before x w u s t =
    parse_stat-behind before (unwords (texts x)) (after_last-unwords (texts x) w)
    ∙ ap parse_fields (split_whitespace-unwords (texts x) w)
    ∙ parse_fields-texts x u s t

-- A content that ends in a closing parenthesis makes the parser panic.
pub parse_stat_content_panics :
    (before : List ℕ) → parse_stat_content (before ++ (41 ∷ [])) ≡ panics
unfolding parse_stat_content
parse_stat_content_panics before =
    let f = after_last-append 41 before [] (unfold after_last in refl) in rw f refl
