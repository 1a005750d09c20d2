-- ===== src/Policy/Jidoka.antt =====
-- crates/duende-policy/src/jidoka.rs: checks that stop on error. A check is a trait object, so a
-- record of its methods.
pub mod Laws
use Prim.Native.String.{◌++◌ as append}
use text.Mathlib.Text.{◌==◌ as str_eq}
use duende.Prelude.{
  Bool, true, false, ◌&&◌, Option, none, some, List, [], ◌∷◌, ◌++◌, map, String, if◌then◌else◌,
}
use duende.Prelude

pub record CheckItem : Type 0 where
  pub name : String
  pub passed : Bool
  pub message : Option String

pub record Evidence : Type 0 where
  pub items : List CheckItem

unfoldable pub new_evidence : Evidence
new_evidence = record { items = [] }

unfoldable pub add : String → Bool → Option String → Evidence → Evidence
add name passed message e = record {
  items = e.items ++ (record { name = name; passed = passed; message = message } ∷ []);
}

unfoldable pub all_passed : Evidence → Bool
all_passed e = Prelude.all (λ (item : CheckItem). item.passed) e.items

pub data ViolationKind : Type 0 where
  invariant precondition postcondition resource_leak timeout : ViolationKind

pub record JidokaViolation : Type 0 where
  pub check_name : String
  pub kind : ViolationKind
  pub description : String

pub record JidokaCheck : Type 0 where
  pub verify : Evidence → Option JidokaViolation
  pub name : String

pub data JidokaResult : Type 0 where
  pass : JidokaResult
  stop : List JidokaViolation → String → JidokaResult

unfoldable pub passed : JidokaResult → Bool
passed pass = true
passed (stop vs r) = false

pub record JidokaGate : Type 0 where
  pub checks : List JidokaCheck
  pub stop_on_first : Bool

unfoldable pub new : Bool → JidokaGate
new stop_on_first = record { checks = []; stop_on_first = stop_on_first }

unfoldable pub add_check : JidokaCheck → JidokaGate → JidokaGate
add_check c g = record g { checks = g.checks ++ (c ∷ []) }

-- The `match` of `recommend`.
abbrev pub advice : ViolationKind → String
advice invariant = "Review invariant conditions and add assertions"
advice precondition = "Validate inputs at function boundaries"
advice postcondition = "Verify outputs meet expected conditions"
advice resource_leak = "Ensure resources are properly cleaned up (RAII pattern)"
advice timeout = "Add timeout handling and circuit breakers"

-- `Vec::dedup`: each element that equals the one kept before it is dropped.
unfoldable pub dedup_after : String → List String → List String
dedup_after x [] = []
dedup_after x (y ∷ ys) =
    let kept = dedup_after y ys in
    let dropped = dedup_after x ys in if str_eq y x then dropped else y ∷ kept

unfoldable pub dedup : List String → List String
unfolding dedup_after
dedup [] = []
dedup (x ∷ xs) = x ∷ dedup_after x xs

abbrev pub join_after : String → List String → String
join_after sep [] = ""
join_after sep (s ∷ ss) = append sep (append s (join_after sep ss))

abbrev pub join : String → List String → String
join sep [] = ""
join sep (s ∷ ss) = append s (join_after sep ss)

unfoldable pub recommend : List JidokaViolation → String
unfolding dedup
recommend [] = ""
recommend (v ∷ vs) = join "; " (dedup (map (λ (w : JidokaViolation). advice w.kind) (v ∷ vs)))

abbrev pub finish : List JidokaViolation → JidokaResult
finish [] = pass
finish (v ∷ vs) = stop (v ∷ vs) (recommend (v ∷ vs))

-- The loop of `check` over the checks left, with the violations pushed so far.
unfoldable pub check_from : Bool → Evidence → List JidokaCheck → List JidokaViolation → JidokaResult
check_from stop_on_first e [] violations = finish violations
check_from stop_on_first e (c ∷ cs) violations = elim (c.verify e) [
  | none ↦ check_from stop_on_first e cs violations
  | some v ↦
      let violations' = violations ++ (v ∷ []) in
      let rest = check_from stop_on_first e cs violations' in
      if stop_on_first then stop violations' (recommend violations') else rest
]

unfoldable pub check : JidokaGate → Evidence → JidokaResult
unfolding check_from
check g e = check_from g.stop_on_first e g.checks []
