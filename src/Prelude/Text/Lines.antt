-- ===== src/Prelude/Text/Lines.antt =====
-- `lines` gives back the lines that a text was put together from.
use mathlib.Core.Path.{◌≡◌, refl, sym, ◌∙◌, ap}
use mathlib.Core.Logic.{inl, inr}
use mathlib.Core.List.{List, [], ◌∷◌, ◌++◌, append_assoc}
use Prim.Native.Nat.{ℕ, zero, suc, ◌+◌, ◌/◌, ◌%◌}
use native.Mathlib.Omega.{arith}
use duende.Prelude.Tests.{ltb, Bool-cases}
use duende.Prelude.Lists.{All, append_nil}
use duende.Prelude.Text.{lines_from, chomp}
use duende.Prelude.Text.Finding.{Lacks}
use duende.Prelude.Decimal.{print}

-- Each line with its line feed.
unfoldable pub unlines : List (List ℕ) → List ℕ
unlines [] = []
unlines (l ∷ ls) = (l ++ (10 ∷ [])) ++ unlines ls

-- No line feed and no carriage return.
abbrev pub IsLine : List ℕ → Type 0
IsLine l = Lacks 10 l × Lacks 13 l

chomp-IsLine : (l : List ℕ) → Lacks 13 l → chomp l ≡ l
unfolding chomp
chomp-IsLine [] h = refl
chomp-IsLine (c ∷ []) h = ground (arith, h.0)
chomp-IsLine (c ∷ d ∷ cs) h = ap (λ (t : List ℕ). c ∷ t) (chomp-IsLine (d ∷ cs) h.1)

lines_from-line :
    (begun l rest : List ℕ)
    → Lacks 10 l
    → lines_from begun (l ++ (10 ∷ rest)) ≡ chomp (begun ++ l) ∷ lines_from [] rest
unfolding lines_from
lines_from-line begun [] rest h =
    ap (λ (t : List ℕ). chomp t ∷ lines_from [] rest) (sym (append_nil begun))
lines_from-line begun (c ∷ cs) rest h =
    let skip : lines_from begun (c ∷ (cs ++ (10 ∷ rest)))
        ≡ lines_from (begun ++ (c ∷ [])) (cs ++ (10 ∷ rest)) =
      ground (arith, h.0) in
    skip
    ∙ lines_from-line (begun ++ (c ∷ [])) cs rest h.1
    ∙ ap (λ (t : List ℕ). chomp t ∷ lines_from [] rest) (append_assoc begun (c ∷ []) cs)

pub lines_from-unlines : (ls : List (List ℕ)) → All IsLine ls → lines_from [] (unlines ls) ≡ ls
unfolding unlines
lines_from-unlines [] h = unfold lines_from in refl
lines_from-unlines (l ∷ ls) h =
    ap (lines_from []) (append_assoc l (10 ∷ []) (unlines ls))
    ∙ lines_from-line [] l (unlines ls) h.0.0
    ∙ rw (chomp-IsLine l h.0.1) (ap (λ (t : List (List ℕ)). l ∷ t) (lines_from-unlines ls h.1))

pub unlines-append : (xs ys : List (List ℕ)) → unlines (xs ++ ys) ≡ unlines xs ++ unlines ys
unfolding unlines
unlines-append [] ys = refl
unlines-append (x ∷ xs) ys =
    ap (λ (t : List ℕ). (x ++ (10 ∷ [])) ++ t) (unlines-append xs ys)
    ∙ sym (append_assoc (x ++ (10 ∷ [])) (unlines xs) (unlines ys))

pub Lacks-append : (c : ℕ) (xs ys : List ℕ) → Lacks c xs → Lacks c ys → Lacks c (xs ++ ys)
Lacks-append c [] ys h k = k
Lacks-append c (x ∷ xs) ys h k = (h.0, Lacks-append c xs ys h.1 k)

pub IsLine-append : (xs ys : List ℕ) → IsLine xs → IsLine ys → IsLine (xs ++ ys)
IsLine-append xs ys h k = (Lacks-append 10 xs ys h.0 k.0, Lacks-append 13 xs ys h.1 k.1)

pub All-append {ℓ κ} :
    {A : Type ℓ} (P : A → Type κ) (xs ys : List A) → All P xs → All P ys → All P (xs ++ ys)
All-append P [] ys h k = k
All-append P (x ∷ xs) ys h k = (h.0, All-append P xs ys h.1 k)

pub print-IsLine : (fuel n : ℕ) → IsLine (print fuel n)
unfolding print
print-IsLine zero n = (tt, tt)
print-IsLine (suc fuel) n = elim (Bool-cases (ltb n 10)) [
  | inl low ↦ rw low ((omega arith, tt), (omega arith, tt))
  | inr high ↦ rw high (
      IsLine-append (print fuel (n / 10)) ((48 + n % 10) ∷ []) (print-IsLine fuel (n / 10))
        ((omega arith, tt), (omega arith, tt)))
]
