-- ===== src/Core/Restart/Fixed.antt =====
-- Fixed-point seconds, in nanoseconds: a concrete arithmetic that meets the interface of the
-- backoff and its laws.
use duende.Prelude.{
  ℕ, zero, suc, ◌*◌, ◌/◌, ◌≤◌, ◌≡◌, refl, true, false, some, ltb, leb, arith, if◌then◌else◌,
}
use duende.Prelude.Float.{F64}
use duende.Core.Types.{ℤ, pos, negsuc}
use duende.Core.Restart.{FloatTime}
use duende.Core.Restart.Backoff.{FloatTimeLaws}

abbrev power : ℕ → ℕ → ℕ
power a zero = 1000000000
power a (suc n) = a * power a n / 1000000000

abbrev pub powi : ℕ → ℤ → ℕ
powi a (pos n) = power a n
powi a (negsuc n) = 0

abbrev pub lesser : ℕ → ℕ → ℕ
lesser a b = if leb a b then a else b

pub lt-secs : (a b : ℕ) → ltb (a * 1000000000) (b * 1000000000) ≡ ltb a b
lt-secs a b = ground arith

pub le-secs : (a b : ℕ) → leb (a * 1000000000) (b * 1000000000) ≡ leb a b
le-secs a b = ground arith

abbrev pub fixed_f64 : F64
fixed_f64 = record {
  Carrier = ℕ;
  of_nat = λ n. n * 1000000000;
  lt = ltb;
  le = leb;
  lt-of_nat = λ a b _ _. lt-secs a b;
  le-of_nat = λ a b _ _. le-secs a b;
}

abbrev pub fixed : FloatTime
fixed = record {
  f64 = fixed_f64;
  as_secs_f64 = λ d. d;
  from_secs_f64 = some;
  mul = λ a b. a * b / 1000000000;
  powi = powi;
  minimum = lesser;
}

not-lt_zero : (a : ℕ) → ltb a 0 ≡ false
not-lt_zero a = ground arith

lesser-le : (a d : ℕ) → leb (lesser a d) d ≡ true
lesser-le a d = ground arith

le_of_leb : (a b d : ℕ) → leb a b ≡ true → some b ≡ some d → a ≤ d
le_of_leb a b d h e = ground arith

pub fixed-laws : FloatTimeLaws fixed
fixed-laws = record {
  round_trip = λ d _. refl;
  secs_nonneg = not-lt_zero;
  powi_pos = λ a n _. not-lt_zero (powi a n);
  powi_nonneg = λ a n _. not-lt_zero (powi a (pos n));
  mul_nonneg = λ a b _ _. not-lt_zero _;
  minimum-le = lesser-le;
  minimum_nonneg = λ a d _. not-lt_zero (lesser a d);
  from_secs_mono = λ a b d _ le e. (a, refl, le_of_leb a b d le e);
}
