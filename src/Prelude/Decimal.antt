-- ===== src/Prelude/Decimal.antt =====
-- `to_string` and `str::parse` of unsigned integers, on the codes of the characters: printing
-- writes no leading zero, and parsing takes one optional plus sign, then digits alone, and refuses
-- an empty number and an overflow.
use duende.Prelude.Tests.{ltb, leb, ◌==◌, if◌then◌else◌, Bool-cases, lt→ltb, ltb→lt}
use Prim.Native.Nat.{ℕ, zero, suc, ◌+◌, ◌-◌, ◌*◌, ◌/◌, ◌%◌, ◌^◌, ◌≤◌, ◌<◌}
use mathlib.Core.Path.{◌≡◌, refl, sym, ◌∙◌, ap}
use mathlib.Core.Logic.{inl, inr}
use mathlib.Core.Bool.{Bool, false, ◌&&◌}
use mathlib.Core.Option.{Option, none, some}
use mathlib.Core.List.{List, [], ◌∷◌, ◌++◌}
use native.Mathlib.Nat.{pow-suc}
use native.Mathlib.Omega.{arith}

-- At most `fuel` digits; a 64-bit number has at most 20.
unfoldable pub print : ℕ → ℕ → List ℕ
print zero n = []
print (suc fuel) n =
    let front = print fuel (n / 10) in
    if ltb n 10 then (48 + n) ∷ [] else front ++ ((48 + n % 10) ∷ [])

abbrev pub to_string : ℕ → List ℕ
to_string n = print 20 n

abbrev pub is_digit : ℕ → Bool
is_digit c = leb 48 c && leb c 57

unfoldable pub parse_digits : ℕ → List ℕ → ℕ → Option ℕ
parse_digits limit [] acc = some acc
parse_digits limit (c ∷ cs) acc =
    let v = acc * 10 + (c - 48) in
    let rest = parse_digits limit cs v in
    if is_digit c then (if ltb v limit then rest else none) else none

-- 43 is '+'.
abbrev nonempty : ℕ → List ℕ → Option ℕ
nonempty limit [] = none
nonempty limit (c ∷ cs) = parse_digits limit (c ∷ cs) 0

unfoldable pub parse : ℕ → List ℕ → Option ℕ
parse limit [] = none
parse limit (c ∷ cs) = if c == 43 then nonempty limit cs else parse_digits limit (c ∷ cs) 0

parse_digits-append :
    (limit : ℕ) (xs : List ℕ) (acc v d : ℕ)
    → parse_digits limit xs acc ≡ some v
    → d < 10
    → v * 10 + d < limit
    → parse_digits limit (xs ++ ((48 + d) ∷ [])) acc ≡ some (v * 10 + d)
unfolding parse_digits
parse_digits-append limit [] acc v d h a b = ground arith
parse_digits-append limit (x ∷ xs) acc v d h a b =
    ground (arith, parse_digits-append limit xs (acc * 10 + (x - 48)) v d)

print_small : (fuel n : ℕ) → n < 10 → print (suc fuel) n ≡ (48 + n) ∷ []
unfolding print
print_small fuel n h = rw (lt→ltb n 10 h) refl

print_large :
    (fuel n : ℕ)
    → ltb n 10 ≡ false
    → print (suc fuel) n ≡ print fuel (n / 10) ++ ((48 + n % 10) ∷ [])
unfolding print
print_large fuel n h = rw h refl

parse_digits_one :
    (limit n : ℕ) → n < 10 → n < limit → parse_digits limit ((48 + n) ∷ []) 0 ≡ some n
unfolding parse_digits
parse_digits_one limit n h b = ground arith

parse_digits-print :
    (limit fuel n : ℕ)
    → n < 10 ^ suc fuel
    → n < limit
    → parse_digits limit (print (suc fuel) n) 0 ≡ some n
parse_digits-print limit zero n h b =
    rw (print_small 0 n (omega arith)) (parse_digits_one limit n (omega arith) b)
parse_digits-print limit (suc fuel) n h b = elim (Bool-cases (ltb n 10)) [
  | inl small ↦
      rw (print_small (suc fuel) n (ltb→lt n 10 small))
        (parse_digits_one limit n (ltb→lt n 10 small) b)
  | inr large ↦
      let front =
        parse_digits-print limit fuel (n / 10) (omega (arith, pow-suc 10 (suc fuel)))
          (omega arith) in
      rw (print_large (suc fuel) n large) (
        parse_digits-append limit (print (suc fuel) (n / 10)) 0 (n / 10) (n % 10) front
          (omega arith) (omega arith)
        ∙ ap (λ (k : ℕ). some k) (omega arith))
]

pub digit_head : (fuel n : ℕ) → (c : ℕ) × (cs : List ℕ) × (print (suc fuel) n ≡ c ∷ cs) × (48 ≤ c)
digit_head zero n = elim (Bool-cases (ltb n 10)) [
  | inl small ↦ (48 + n, [], print_small 0 n (ltb→lt n 10 small), omega arith)
  | inr large ↦ (48 + n % 10, [], print_large 0 n large ∙ unfold print in refl, omega arith)
]
digit_head (suc fuel) n = elim (Bool-cases (ltb n 10)) [
  | inl small ↦ (48 + n, [], print_small (suc fuel) n (ltb→lt n 10 small), omega arith)
  | inr large ↦
      let (c, cs, e, d) = digit_head fuel (n / 10) in
      (
        c,
        cs ++ ((48 + n % 10) ∷ []),
        print_large (suc fuel) n large ∙ ap (λ (t : List ℕ). t ++ ((48 + n % 10) ∷ [])) e,
        d,
      )
]

parse-digits :
    (limit : ℕ) (c : ℕ) (cs : List ℕ)
    → 48 ≤ c
    → parse limit (c ∷ cs) ≡ parse_digits limit (c ∷ cs) 0
unfolding parse
parse-digits limit c cs h = ground arith

-- A number of at most 64 bits that is below the limit of its type is read back from its text.
pub parse-to_string :
    (limit n : ℕ) → n < limit → limit ≤ 18446744073709551616 → parse limit (to_string n) ≡ some n
parse-to_string limit n h b =
    let (c, cs, e, d) = digit_head 19 n in
    ap (parse limit) e
    ∙ parse-digits limit c cs d
    ∙ ap (λ t. parse_digits limit t 0) (sym e)
    ∙ parse_digits-print limit 19 n (omega arith) h
