-- ===== src/Policy/Jidoka/Laws.antt =====
-- What a gate reports, against a description without the loop (jidoka.rs).
use text.Mathlib.Text.{◌==◌ as str_eq}
use text.Mathlib.TextEquality.{eq_iff}
use mathlib.Core.List.{append_assoc, append-nil}
use duende.Prelude.{
  ◌≡◌, ◌≢◌, ◌↔◌, ◌⊎◌, refl, ap, ◌∙◌, Bool, true, false, ◌||◌, Option, none, some, List, [], ◌∷◌,
  ◌++◌, String, arith, take, All, if◌then◌else◌, Bool-cases, Option-cases, inl, inr,
}
use duende.Policy.Jidoka.{
  Evidence, JidokaViolation, JidokaCheck, JidokaResult, pass, stop, recommend, passed, JidokaGate,
  finish, check_from, check, dedup_after, dedup,
}

abbrev cons_some {ℓ} : {A : Type ℓ} → Option A → List A → List A
cons_some none xs = xs
cons_some (some x) xs = x ∷ xs

-- The violations that the checks find, in their order.
pub found : Evidence → List JidokaCheck → List JidokaViolation
found e [] = []
found e (c ∷ cs) = cons_some (c.verify e) (found e cs)

abbrev pub reported : Bool → List JidokaViolation → List JidokaViolation
reported stop_on_first vs = if stop_on_first then take 1 vs else vs

collect_all :
    (e : Evidence) (cs : List JidokaCheck) (vs : List JidokaViolation)
    → check_from false e cs vs ≡ finish (vs ++ found e cs)
unfolding check_from found
collect_all e [] vs = simp append-nil
collect_all e (c ∷ cs) vs = elim (Option-cases (c.verify e)) [
  | inl n ↦ rw (n, check_from) (collect_all e cs vs)
  | inr (v, s) ↦
      rw (s, check_from)
        (collect_all e cs (vs ++ (v ∷ [])) ∙ ap finish (append_assoc vs (v ∷ []) (found e cs)))
]

first_only :
    (e : Evidence) (cs : List JidokaCheck) → check_from true e cs [] ≡ finish (take 1 (found e cs))
unfolding check_from found
first_only e [] = refl
first_only e (c ∷ cs) = elim (Option-cases (c.verify e)) [
  | inl n ↦ rw (n, check_from) (first_only e cs)
  | inr (v, s) ↦ rw (s, check_from) refl
]

check-finish :
    (g : JidokaGate) (e : Evidence)
    → check g e ≡ finish (reported g.stop_on_first (found e g.checks))
unfolding check
check-finish g e = elim (Bool-cases g.stop_on_first) [
  | inl b ↦ rw b (first_only e g.checks)
  | inr b ↦ rw b (collect_all e g.checks [])
]

-- Without violations the gate passes, and with some it stops, with these and the advice on them.
abbrev pub Judged : List JidokaViolation → JidokaResult → Type 0
Judged vs r =
    ((vs ≡ []) × (r ≡ pass))
    ⊎ ((v : JidokaViolation) × (rest : List JidokaViolation) × (vs ≡ v ∷ rest)
        × (r ≡ stop (v ∷ rest) (recommend (v ∷ rest))))

finish-Judged : (vs : List JidokaViolation) → Judged vs (finish vs)
finish-Judged [] = inl (refl, refl)
finish-Judged (v ∷ vs) = inr (v, vs, refl, refl)

-- A gate judges the violations that its checks find, in their order: all of them, or the first alone
-- if the gate stops on the first. With none the gate passes; otherwise it stops, with those
-- violations and what `recommend` says of them.
pub check_lem :
    (g : JidokaGate) (e : Evidence)
    → Judged (reported g.stop_on_first (found e g.checks)) (check g e)
check_lem g e = rw (check-finish g e) (finish-Judged (reported g.stop_on_first (found e g.checks)))

finish-passed :
    (b : Bool) (vs : List JidokaViolation) → (passed (finish (reported b vs)) ≡ true) ↔ (vs ≡ [])
unfolding passed
finish-passed true [] = ground arith
finish-passed true (v ∷ vs) = ground arith
finish-passed false [] = ground arith
finish-passed false (v ∷ vs) = ground arith

abbrev pub Silent : Evidence → JidokaCheck → Type 0
Silent e c = c.verify e ≡ none

found-nil : (e : Evidence) (cs : List JidokaCheck) → (found e cs ≡ []) ↔ All (Silent e) cs
unfolding found
found-nil e [] = (λ _. tt, λ _. refl)
found-nil e (c ∷ cs) = ground (arith, found-nil e cs)

-- A gate passes exactly when each of its checks verifies the evidence without a violation,
-- whether it stops on the first or not.
pub check-passed :
    (g : JidokaGate) (e : Evidence) → (passed (check g e) ≡ true) ↔ All (Silent e) g.checks
check-passed g e =
    let (only, back) = finish-passed g.stop_on_first (found e g.checks) in
    let (silent, none_found) = found-nil e g.checks in
    rw (check-finish g e) ((λ p. silent (only p)), (λ s. back (none_found s)))

-- No entry equals the one before it.
abbrev pub Alternates : List String → Type 0
Alternates [] = Unit {0}
Alternates (x ∷ []) = Unit {0}
Alternates (x ∷ (y ∷ ys)) = (x ≢ y) × Alternates (y ∷ ys)

abbrev pub contains : String → List String → Bool
contains r [] = false
contains r (x ∷ xs) = str_eq x r || contains r xs

dedup_after-Alternates : (x : String) (xs : List String) → Alternates (x ∷ dedup_after x xs)
unfolding dedup_after
dedup_after-Alternates x [] = tt
dedup_after-Alternates x (y ∷ ys) = elim (Bool-cases (str_eq y x)) [
  | inl same ↦ rw same (dedup_after-Alternates x ys)
  | inr other ↦ rw other (λ e. ground (arith, eq_iff y x), dedup_after-Alternates y ys)
]

dedup_after-contains :
    (r x : String) (xs : List String) → contains r (x ∷ dedup_after x xs) ≡ contains r (x ∷ xs)
unfolding dedup_after
dedup_after-contains r x [] = refl
dedup_after-contains r x (y ∷ ys) = ground (
  arith,
  eq_iff y x,
  eq_iff x r,
  eq_iff y r,
  dedup_after-contains r x ys,
  dedup_after-contains r y ys,
)

-- Deduplication, as `recommend` uses it, leaves no entry that equals the one before it, and keeps
-- exactly the entries that were there.
pub dedup_lem :
    (xs : List String)
    → Alternates (dedup xs) × ((r : String) → contains r (dedup xs) ≡ contains r xs)
unfolding dedup
dedup_lem [] = (tt, λ r. refl)
dedup_lem (x ∷ xs) = (dedup_after-Alternates x xs, λ r. dedup_after-contains r x xs)
