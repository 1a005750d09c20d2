-- ===== src/Core/Adapters/Tool.antt =====
-- What the adapters of crates/duende-core/src/adapters/ share: the command-line tools they run, an
-- interface that answers each call, and the numbers they read in a tool's output.
use duende.Prelude.{
  ℕ, zero, suc, ◌||◌, Bool, true, false, Option, none, some, List, [], ◌∷◌, ◌==◌, if◌then◌else◌,
}
use duende.Prelude.Text.{chars, find_after, take_while}
use duende.Prelude.Decimal.{parse, is_digit}
use duende.Core.Types.{ℤ, pos, negsuc, Signal, hup, int, quit, term, kill, usr1, usr2, stop, cont}
use duende.Core.Adapter.{PlatformError, PlatformResult, err, ok}

-- The error code of a command that cannot be run; or the exit code, `none` after a death by a
-- signal, and what the command wrote to its output and to its error output.
pub data Call : Type 0 where
  not_run : ℕ → Call
  finished : Option ℕ → List ℕ → List ℕ → Call

pub record Tool : Type 1 where
  pub State : Type 0
  pub run : List (List ℕ) → State → Call × State

-- `ExitStatus::success` and `code`.
abbrev pub success : Option ℕ → Bool
success (some zero) = true
success _ = false

abbrev pub code_or : ℕ → Option ℕ → ℕ
code_or fallback none = fallback
code_or fallback (some code) = code

abbrev pub succeeded : Call → Bool
succeeded (not_run code) = false
succeeded (finished code out error) = success code

-- The output of a command that must succeed; what it wrote to its error output if it does not.
abbrev pub checked : (ℕ → PlatformError) → (List ℕ → PlatformError) → Call → PlatformResult (List ℕ)
checked unable refused (not_run code) = err (unable code)
checked unable refused (finished code out error) =
    if success code then ok out else err (refused error)

-- `?` on a result, with what follows it.
abbrev pub and_then {ℓ κ} :
    {A : Type ℓ} {B : Type κ} → PlatformResult A → (A → PlatformResult B) → PlatformResult B
and_then (err e) f = err e
and_then (ok a) f = f a

abbrev pub done_with {ℓ κ} : {A : Type ℓ} {B : Type κ} → B → PlatformResult A → PlatformResult B
done_with b r = and_then r (λ a. ok b)

-- `str::parse` to `i32` of a text of digits and minus signs (45).
abbrev pub negated : Option ℕ → Option ℤ
negated none = none
negated (some zero) = some (pos 0)
negated (some (suc n)) = some (negsuc n)

abbrev pub positive : Option ℕ → Option ℤ
positive none = none
positive (some n) = some (pos n)

unfoldable pub parse_i32 : List ℕ → Option ℤ
unfolding parse
parse_i32 [] = none
parse_i32 (c ∷ cs) =
    if c == 45 then negated (parse 2147483649 cs) else positive (parse 2147483648 (c ∷ cs))

abbrev pub number_text : List ℕ → List ℕ
number_text rest = take_while (λ c. is_digit c || (c == 45)) rest

unfoldable pub exit_code_from : List (List ℕ) → List ℕ → Option ℤ
unfolding find_after parse_i32
exit_code_from [] output = none
exit_code_from (pattern ∷ patterns) output =
    let others = exit_code_from patterns output in
    elim (find_after pattern output) [
      | none ↦ others
      | some rest ↦ elim (number_text rest) [ [] ↦ others | c ∷ cs ↦ parse_i32 (c ∷ cs) ]
    ]

-- `str::replace` of a character by another.
unfoldable pub replace : ℕ → ℕ → List ℕ → List ℕ
replace old new [] = []
replace old new (c ∷ cs) = (if c == old then new else c) ∷ replace old new cs

unfoldable pub signal_name : Signal → List ℕ
signal_name term = chars "SIGTERM"
signal_name kill = chars "SIGKILL"
signal_name int = chars "SIGINT"
signal_name quit = chars "SIGQUIT"
signal_name hup = chars "SIGHUP"
signal_name usr1 = chars "SIGUSR1"
signal_name usr2 = chars "SIGUSR2"
signal_name stop = chars "SIGSTOP"
signal_name cont = chars "SIGCONT"
