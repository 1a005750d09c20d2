-- ===== src/Observe/Proc.antt =====
-- crates/duende-observe/src/monitor.rs and error.rs: the parsers of the files under /proc. Their
-- contents, or the errors of reading them, are arguments.
pub mod Stat
use duende.Prelude.{
  ℕ, ◌+◌, ◌-◌, ◌*◌, Bool, true, false, Option, none, some, List, [], ◌∷◌, ◌++◌, String, ltb, leb,
  ◌==◌, if◌then◌else◌, length, get_elem?, u32_mod, u64_mod, wrap64,
}
use duende.Prelude.Decimal.{parse}
use duende.Prelude.Text.{split_whitespace, lines_from, strip_prefix, trim, after_last}

-- A message is its template with the number that `format!` puts in, or 0.
pub data ObserveError : Type 0 where
  monitor : String → ℕ → ObserveError
  io : ℕ → ObserveError  -- the error code of `std::io::Error`

-- A call that panics has no result.
pub data Result {ℓ} (T : Type ℓ) : Type ℓ where
  err : ObserveError → Result T
  ok : T → Result T
  panics : Result T

infixl 5 ◌>>=◌
abbrev pub ◌>>=◌ {ℓ κ} : {S : Type ℓ} {T : Type κ} → Result S → (S → Result T) → Result T
err failure >>= next = err failure
panics >>= next = panics
ok value >>= next = next value

abbrev pub ok_or {ℓ} : {T : Type ℓ} → ObserveError → Option T → Result T
ok_or e none = err e
ok_or e (some value) = ok value

pub data ProcessState : Type 0 where
  running sleeping disk_wait zombie stopped unknown : ProcessState

pub record ProcStat : Type 0 where
  pub state : ProcessState
  pub utime : ℕ  -- u64
  pub stime : ℕ  -- u64
  pub num_threads : ℕ  -- u32

-- The letters R, S, D, Z, T and t.
unfoldable pub state_of_letter : ℕ → ProcessState
state_of_letter c =
    if c == 82
    then running
    else if c == 83
    then sleeping
    else if c == 68
    then disk_wait
    else if c == 90
    then zombie
    else if (c == 84)
    then stopped
    else if (c == 116)
    then stopped
    else unknown

abbrev pub state_of : List ℕ → ProcessState
state_of [] = unknown
state_of (c ∷ cs) = state_of_letter c

-- `fields[i].parse()`; an index beyond the fields panics.
abbrev pub number_at : ℕ → String → ℕ → List (List ℕ) → Result ℕ
number_at limit message i fields = elim (get_elem? fields i) [
  | none ↦ panics
  | some text ↦ ok_or (monitor message 0) (parse limit text)
]

abbrev first_field : List (List ℕ) → Result (List ℕ)
first_field [] = panics
first_field (text ∷ texts) = ok text

unfoldable pub parse_fields : List (List ℕ) → Result ProcStat
unfolding state_of_letter
parse_fields fields =
    if ltb (length fields) 20
    then err (monitor "malformed /proc/stat: expected 20+ fields, got {}" (length fields))
    else do
      letter ← first_field fields
      utime ← number_at u64_mod "failed to parse utime" 11 fields
      stime ← number_at u64_mod "failed to parse stime" 12 fields
      threads ← number_at u32_mod "failed to parse num_threads" 17 fields
      ok (record { state = state_of letter; utime = utime; stime = stime; num_threads = threads })

-- `&content[comm_end + 2..]` for what follows the parenthesis: an index behind the end, or inside a
-- character of several bytes, panics.
abbrev pub skip_space : List ℕ → Result (List ℕ)
skip_space [] = panics
skip_space (c ∷ cs) = if ltb c 128 then ok cs else panics

-- 41 is ')'.
unfoldable pub parse_stat_content : List ℕ → Result ProcStat
unfolding parse_fields
parse_stat_content content = do
  rest ← ok_or (monitor "malformed /proc/stat: no closing paren" 0) (after_last 41 content)
  after_comm ← skip_space rest
  parse_fields (split_whitespace after_comm)

-- The codes of "read_bytes: " and "write_bytes: ".
abbrev read_key : List ℕ
read_key = 114 ∷ 101 ∷ 97 ∷ 100 ∷ 95 ∷ 98 ∷ 121 ∷ 116 ∷ 101 ∷ 115 ∷ 58 ∷ 32 ∷ []

abbrev write_key : List ℕ
write_key = 119 ∷ 114 ∷ 105 ∷ 116 ∷ 101 ∷ 95 ∷ 98 ∷ 121 ∷ 116 ∷ 101 ∷ 115 ∷ 58 ∷ 32 ∷ []

abbrev or_zero : Option ℕ → ℕ
or_zero none = 0
or_zero (some n) = n

-- The loop over the lines of /proc/{pid}/io: a later line replaces an earlier one.
unfoldable pub io_lines : List (List ℕ) → ℕ × ℕ → ℕ × ℕ
io_lines [] totals = totals
io_lines (line ∷ rest) (reads, writes) = elim (strip_prefix read_key line) [
  | some value ↦ io_lines rest (or_zero (parse u64_mod (trim value)), writes)
  | none ↦ elim (strip_prefix write_key line) [
    | some value ↦ io_lines rest (reads, or_zero (parse u64_mod (trim value)))
    | none ↦ io_lines rest (reads, writes)
  ]
]

-- The error of reading /proc/{pid}/stat; the code 2 is `ErrorKind::NotFound`.
abbrev stat_error : ℕ → ObserveError → ObserveError
stat_error pid (monitor message n) = monitor message n
stat_error pid (io code) = if code == 2 then monitor "process {} not found" pid else io code

abbrev stat_text : ℕ → Result (List ℕ) → Result (List ℕ)
stat_text pid (err e) = err (stat_error pid e)
stat_text pid panics = panics
stat_text pid (ok text) = ok text

unfoldable pub parse_proc_stat : ℕ → Result (List ℕ) → Result ProcStat
unfolding parse_stat_content
parse_proc_stat pid content = stat_text pid content >>= parse_stat_content

unfoldable pub parse_proc_io : Result (List ℕ) → Result (ℕ × ℕ)
unfolding io_lines
parse_proc_io content = do text ← content; ok (io_lines (lines_from [] text) (0, 0))

-- Two fields are needed; the second is the number of resident pages.
unfoldable pub parse_proc_statm : ℕ → Result (List ℕ) → Result ℕ
parse_proc_statm page_size content = do
  text ← content
  let fields = split_whitespace text
  pages ←
      if ltb (length fields) 2
      then err (monitor "malformed /proc/statm" 0)
      else number_at u64_mod "failed to parse RSS pages" 1 fields
  ok (wrap64 (pages * page_size))
