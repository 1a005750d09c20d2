-- ===== src/Prelude/Text/Trimming.antt =====
-- `trim` and `strip_suffix` on words, blanks and decimal numbers.
use Prim.Native.Nat.{ℕ, zero, suc, ◌+◌, ◌/◌, ◌%◌, ◌≤◌, ◌<◌}
use mathlib.Core.Path.{◌≡◌, refl, ◌∙◌, ap}
use mathlib.Core.Logic.{inl, inr}
use mathlib.Core.Bool.{true, false}
use mathlib.Core.Option.{some}
use mathlib.Core.List.{List, [], ◌∷◌, ◌++◌}
use native.Mathlib.Omega.{arith}
use duende.Prelude.Tests.{ltb, ◌==◌, Bool-cases}
use duende.Prelude.Lists.{All}
use duende.Prelude.Text.{trim, trim_start, trim_end, is_whitespace, strip_suffix}
use duende.Prelude.Text.Splitting.{Plain}
use duende.Prelude.Text.Finding.{same_text_refl}
use duende.Prelude.Decimal.{print}

-- White space alone.
abbrev pub IsBlank : List ℕ → Type 0
IsBlank bs = All (λ c. is_whitespace c ≡ true) bs

abbrev pub IsInk : List ℕ → Type 0
IsInk w = All (λ c. is_whitespace c ≡ false) w

-- A digit: no white space, no parenthesis, no line end.
abbrev pub IsDecimal : List ℕ → Type 0
IsDecimal w = All (λ c. (48 ≤ c) × (c ≤ 57)) w

All-append_digit : (xs : List ℕ) (d : ℕ) → IsDecimal xs → d < 10 → IsDecimal (xs ++ ((48 + d) ∷ []))
All-append_digit [] d h k = ((omega arith, omega arith), tt)
All-append_digit (x ∷ xs) d h k = (h.0, All-append_digit xs d h.1 k)

pub print-IsDecimal : (fuel n : ℕ) → IsDecimal (print fuel n)
unfolding print
print-IsDecimal zero n = tt
print-IsDecimal (suc fuel) n = elim (Bool-cases (ltb n 10)) [
  | inl low ↦ rw low ((omega arith, ground arith), tt)
  | inr high ↦ rw high (
      All-append_digit (print fuel (n / 10)) (n % 10) (print-IsDecimal fuel (n / 10)) (omega arith))
]

pub ink_lem : (c : ℕ) → 48 ≤ c → c ≤ 57 → is_whitespace c ≡ false
unfolding is_whitespace
ink_lem c h k = ground arith

pub IsDecimal-IsInk : (w : List ℕ) → IsDecimal w → IsInk w
IsDecimal-IsInk [] h = tt
IsDecimal-IsInk (c ∷ cs) h = (ink_lem c h.0.0 h.0.1, IsDecimal-IsInk cs h.1)

pub IsDecimal-Plain : (w : List ℕ) → IsDecimal w → All Plain w
IsDecimal-Plain [] h = tt
IsDecimal-Plain (c ∷ cs) h = ((ink_lem c h.0.0 h.0.1, omega (arith, h.0.0)), IsDecimal-Plain cs h.1)

pub trim_start-blank :
    (bs : List ℕ) (c : ℕ) (cs : List ℕ)
    → IsBlank bs
    → is_whitespace c ≡ false
    → trim_start (bs ++ (c ∷ cs)) ≡ c ∷ cs
unfolding trim_start
trim_start-blank [] c cs h k = rw (k, trim_start) refl
trim_start-blank (b ∷ bs) c cs h k = rw (h.0, trim_start) (trim_start-blank bs c cs h.1 k)

pub trim_end-ink :
    (w : List ℕ) (c : ℕ) → is_whitespace c ≡ false → trim_end (w ++ (c ∷ [])) ≡ w ++ (c ∷ [])
unfolding trim_end
trim_end-ink [] c k = rw (k, trim_end) refl
trim_end-ink (x ∷ []) c k = rw (trim_end-ink [] c k, trim_end) refl
trim_end-ink (x ∷ y ∷ w) c k = rw (trim_end-ink (y ∷ w) c k, trim_end) refl

not_space : (c : ℕ) → is_whitespace c ≡ false → (c == 32) ≡ false
unfolding is_whitespace
not_space c h = ground arith

pub strip_suffix-append :
    (suffix w : List ℕ) → IsInk w → strip_suffix (32 ∷ suffix) (w ++ (32 ∷ suffix)) ≡ some w
unfolding strip_suffix
strip_suffix-append suffix [] h = rw (same_text_refl suffix, strip_suffix) refl
strip_suffix-append suffix (c ∷ cs) h =
    let other : (c == 32) ≡ false = not_space c h.0 in
    rw (strip_suffix-append suffix cs h.1, strip_suffix) (rw other refl)

trim_end-IsInk : (w : List ℕ) → IsInk w → trim_end w ≡ w
unfolding trim_end
trim_end-IsInk [] h = refl
trim_end-IsInk (c ∷ []) h = rw (h.0, trim_end) refl
trim_end-IsInk (c ∷ d ∷ cs) h = rw (trim_end-IsInk (d ∷ cs) h.1, trim_end) refl

pub trim-IsInk : (w : List ℕ) → IsInk w → trim w ≡ w
trim-IsInk [] h = unfold trim_start trim_end in refl
trim-IsInk (c ∷ cs) h = ap trim_end (trim_start-blank [] c cs tt h.0) ∙ trim_end-IsInk (c ∷ cs) h
