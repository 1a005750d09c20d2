-- ===== src/Prelude/Float.antt =====
-- IEEE 754 doubles are not in the source: their comparisons are an interface. A comparison with
-- NaN is false both ways, so the two tests are independent fields.
use Prim.Native.Nat.{ℕ, ◌≤◌}
use mathlib.Core.Path.{◌≡◌, refl}
use mathlib.Core.Bool.{Bool, false}
use mathlib.Core.Option.{Option, some}
use duende.Prelude.Tests.{ltb, leb}

-- Integers up to 2 ^ 53 are represented exactly.
abbrev pub exact_max : ℕ
exact_max = 9007199254740992

pub record F64 : Type 1 where
  pub Carrier : Type 0
  pub of_nat : ℕ → Carrier
  pub lt : Carrier → Carrier → Bool
  pub le : Carrier → Carrier → Bool
  pub lt-of_nat : (a b : ℕ) → a ≤ exact_max → b ≤ exact_max → lt (of_nat a) (of_nat b) ≡ ltb a b
  pub le-of_nat : (a b : ℕ) → a ≤ exact_max → b ≤ exact_max → le (of_nat a) (of_nat b) ≡ leb a b

abbrev lt_or_nan : Option ℕ → Option ℕ → Bool
lt_or_nan (some a) (some b) = ltb a b
lt_or_nan _ _ = false

abbrev le_or_nan : Option ℕ → Option ℕ → Bool
le_or_nan (some a) (some b) = leb a b
le_or_nan _ _ = false

-- The interface can be met: numbers without fractions or signs, and NaN as `none`.
abbrev pub whole : F64
whole = record {
  Carrier = Option ℕ;
  of_nat = some;
  lt = lt_or_nan;
  le = le_or_nan;
  lt-of_nat = λ a b _ _. refl;
  le-of_nat = λ a b _ _. refl;
}
