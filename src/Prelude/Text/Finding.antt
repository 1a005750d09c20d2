-- ===== src/Prelude/Text/Finding.antt =====
-- `find`, `contains` and `==` on texts against what they mean.
use mathlib.Core.Path.{◌≡◌, refl, ◌∙◌, ap, subst}
use mathlib.Core.Logic.{◌≢◌, inl, inr}
use mathlib.Core.Bool.{true, false}
use mathlib.Core.Option.{some}
use mathlib.Core.List.{List, [], ◌∷◌, ◌++◌, append_assoc}
use Prim.Native.Nat.{ℕ}
use native.Mathlib.Omega.{arith}
use duende.Prelude.Tests.{Bool-cases, Option-cases}
use duende.Prelude.Lists.{All}
use duende.Prelude.Text.{strip_prefix, find_after, contains, same_text}

abbrev pub Occurs : List ℕ → List ℕ → Type 0
Occurs pattern text = (before : List ℕ) × (after : List ℕ) × (text ≡ before ++ (pattern ++ after))

-- A character of the text: the pattern has one at least.
abbrev pub IsFilled : List ℕ → Type 0
IsFilled pattern = (c : ℕ) × (cs : List ℕ) × (pattern ≡ c ∷ cs)

strip_prefix-some :
    (pattern text rest : List ℕ) → strip_prefix pattern text ≡ some rest → text ≡ pattern ++ rest
unfolding strip_prefix
strip_prefix-some [] text rest e = ground arith
strip_prefix-some (p ∷ ps) [] rest e = absurd (cc)
strip_prefix-some (p ∷ ps) (c ∷ cs) rest e = ground (arith, strip_prefix-some ps cs rest)

strip_prefix-append : (pattern rest : List ℕ) → strip_prefix pattern (pattern ++ rest) ≡ some rest
unfolding strip_prefix
strip_prefix-append [] rest = refl
strip_prefix-append (p ∷ ps) rest = ground (arith, strip_prefix-append ps rest)

pub find_after-Occurs :
    (pattern text rest : List ℕ)
    → find_after pattern text ≡ some rest
    → (before : List ℕ) × (text ≡ before ++ (pattern ++ rest))
unfolding find_after
find_after-Occurs pattern [] rest e = absurd (cc)
find_after-Occurs pattern (c ∷ cs) rest e = elim (Option-cases (strip_prefix pattern (c ∷ cs))) [
  | inr (found, s) ↦
      let same : found ≡ rest = ground (arith, s, e) in
      ([], strip_prefix-some pattern (c ∷ cs) rest (s ∙ ap some same))
  | inl s ↦
      let later : find_after pattern cs ≡ some rest = ground (arith, s, e) in
      let (before, split) = find_after-Occurs pattern cs rest later in
      (c ∷ before, ap (λ (t : List ℕ). c ∷ t) split)
]

abbrev IsFound : List ℕ → List ℕ → Type 0
IsFound pattern text = (rest : List ℕ) × (find_after pattern text ≡ some rest)

find_after-IsFound :
    (before pattern after : List ℕ)
    → IsFilled pattern
    → IsFound pattern (before ++ (pattern ++ after))
unfolding find_after
find_after-IsFound [] [] after (c, cs, e) = absurd (cc)
find_after-IsFound [] (p ∷ ps) after filled =
    (after, rw (strip_prefix-append (p ∷ ps) after, find_after) refl)
find_after-IsFound (c ∷ before) pattern after filled =
    elim (Option-cases (strip_prefix pattern (c ∷ (before ++ (pattern ++ after))))) [
      | inr (found, s) ↦ (found, rw (s, find_after) refl)
      | inl s ↦
          let (rest, e) = find_after-IsFound before pattern after filled in
          (rest, rw (s, find_after) e)
    ]

pub contains-Occurs : (pattern text : List ℕ) → contains pattern text ≡ true → Occurs pattern text
unfolding contains
contains-Occurs pattern text e = elim (Option-cases (find_after pattern text)) [
  | inr (rest, f) ↦
      let (before, split) = find_after-Occurs pattern text rest f in (before, rest, split)
  | inl f ↦ absurd (ground (arith, f, e))
]

pub Occurs-contains :
    (pattern text : List ℕ) → IsFilled pattern → Occurs pattern text → contains pattern text ≡ true
unfolding contains
Occurs-contains pattern text filled (before, after, e) =
    let (rest, f) = find_after-IsFound before pattern after filled in rw (e, f, contains) refl

-- A pattern with a character that the text has not is not found.
abbrev pub Lacks : ℕ → List ℕ → Type 0
Lacks c text = All (λ x. x ≢ c) text

All-append_right : (c : ℕ) (xs ys : List ℕ) → Lacks c (xs ++ ys) → Lacks c ys
All-append_right c [] ys h = h
All-append_right c (x ∷ xs) ys h = All-append_right c xs ys h.1

pub Lacks-contains :
    (c : ℕ) (front back text : List ℕ) → Lacks c text → contains (front ++ (c ∷ back)) text ≡ false
Lacks-contains c front back text h = elim (Bool-cases (contains (front ++ (c ∷ back)) text)) [
  | inr miss ↦ miss
  | inl hit ↦
      let (before, after, e) = contains-Occurs (front ++ (c ∷ back)) text hit in
      let whole : Lacks c (before ++ ((front ++ (c ∷ back)) ++ after)) =
        subst (λ (t : List ℕ). Lacks c t) e h in
      let tail : Lacks c ((front ++ (c ∷ back)) ++ after) =
        All-append_right c before ((front ++ (c ∷ back)) ++ after) whole in
      let split : Lacks c (front ++ ((c ∷ back) ++ after)) =
        subst (λ (t : List ℕ). Lacks c t) (append_assoc front (c ∷ back) after) tail in
      absurd ((All-append_right c front ((c ∷ back) ++ after) split).0 refl)
]

pub same_text_refl : (x : List ℕ) → same_text x x ≡ true
same_text_refl [] = refl
same_text_refl (c ∷ cs) = ground (arith, same_text_refl cs)

pub same_text_eq : (x y : List ℕ) → same_text x y ≡ true → x ≡ y
same_text_eq [] [] h = refl
same_text_eq [] (d ∷ ds) h = absurd (cc)
same_text_eq (c ∷ cs) [] h = absurd (cc)
same_text_eq (c ∷ cs) (d ∷ ds) h =
    let head : c ≡ d = ground arith in
    let rest : same_text cs ds ≡ true = ground arith in rw (head, same_text_eq cs ds rest) refl
