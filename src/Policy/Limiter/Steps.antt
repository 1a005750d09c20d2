-- ===== src/Policy/Limiter/Steps.antt =====
-- The steps of `apply`, as a relation: which limits are written, from which state, and how it ends
-- (limiter.rs).
use mathlib.Core.List.{append_assoc, append-nil}
use mathlib.Core.List.{Sublistᴰ}
use mathlib.Core.List.Sublistᴰ.{slnil, cons, cons-cons}
use duende.Prelude.{
  ℕ, ◌≡◌, refl, sym, ap, ◌∙◌, inl, inr, Bool, true, false, Option, none, some, String, List, [],
  ◌∷◌, ◌++◌, Bool-cases,
}
use duende.Prelude.Disk.{Disk}
use duende.Prelude.Text.{chars, join}
use duende.Policy.Limiter.{
  Outcome, done, failed, LimitError, set_failed, ◌then_do◌, checked, put_limit, put_if,
}

abbrev pub Entry : Type 0
Entry = List ℕ × List ℕ

abbrev pub entry : List ℕ → String → List ℕ → List ℕ × List ℕ
entry dir name text = (join dir (chars name), text)

abbrev pub when : Bool → List ℕ × List ℕ → List (List ℕ × List ℕ)
when true e = e ∷ []
when false e = []

module _ (d : Disk) where
  -- The settings are gone through one by one, from a state to another, and some of them are written: a
  -- setting whose file is there is written, another is passed over, and a failed write is the end.
  pub data Puts
      : d.State → List (List ℕ × List ℕ) → Outcome → d.State → List (List ℕ × List ℕ) → Type 0 where
    over : {s : d.State} → Puts s [] done s []
    written :
        {s t u : d.State} {l ws : List (List ℕ × List ℕ)} {r : Outcome} (w : List ℕ × List ℕ)
        → d.exists w.0 s ≡ true
        → d.write w.0 w.1 s ≡ (none, t)
        → Puts t l r u ws
        → Puts s (w ∷ l) r u (w ∷ ws)
    passed_over :
        {s u : d.State} {l ws : List (List ℕ × List ℕ)} {r : Outcome} (w : List ℕ × List ℕ)
        → d.exists w.0 s ≡ false
        → Puts s l r u ws
        → Puts s (w ∷ l) r u ws
    refused :
        {s t : d.State} {l : List (List ℕ × List ℕ)} (w : List ℕ × List ℕ) (name : String)
        (code : ℕ)
        → d.exists w.0 s ≡ true
        → d.write w.0 w.1 s ≡ (some code, t)
        → Puts s (w ∷ l) (failed (set_failed name code)) t []

  Puts-append :
      {s t u : d.State} {l m ws us : List Entry} {r : Outcome}
      → Puts s l done t ws
      → Puts t m r u us
      → Puts s (l ++ m) r u (ws ++ us)
  Puts-append over q = q
  Puts-append (written w there e p) q = written w there e (Puts-append p q)
  Puts-append (passed_over w absent p) q = passed_over w absent (Puts-append p q)

  Puts-stopped :
      {s t : d.State} {l ws : List Entry} {e : LimitError} (m : List Entry)
      → Puts s l (failed e) t ws
      → Puts s (l ++ m) (failed e) t ws
  Puts-stopped m (written w there e p) = written w there e (Puts-stopped m p)
  Puts-stopped m (passed_over w absent p) = passed_over w absent (Puts-stopped m p)
  Puts-stopped m (refused w name code there e) = refused w name code there e

  pub write-written :
      (s t : d.State) (w : Entry)
      → d.write w.0 w.1 s ≡ (none, t)
      → d.written t ≡ d.written s ++ (w ∷ [])
  write-written s t w e = ap (λ o. d.written o.1) (sym e) ∙ d.write_done w.0 w.1 s (ap (λ o. o.0) e)

  pub refused-written :
      (s t : d.State) (w : Entry) (code : ℕ)
      → d.write w.0 w.1 s ≡ (some code, t)
      → d.written t ≡ d.written s
  refused-written s t w code e =
      ap (λ o. d.written o.1) (sym e) ∙ d.write_failed w.0 w.1 s code (ap (λ o. o.0) e)

  pub Puts-logged :
      {s t : d.State} {l ws : List Entry} {r : Outcome}
      → Puts s l r t ws
      → d.written t ≡ d.written s ++ ws
  Puts-logged (over {s = s}) = sym (append-nil (d.written s))
  Puts-logged (written {s = s} {t = t} {ws = ws} w there e p) =
      Puts-logged p
      ∙ ap (λ (x : List Entry). x ++ ws) (write-written s t w e)
      ∙ append_assoc (d.written s) (w ∷ []) ws
  Puts-logged (passed_over w absent p) = Puts-logged p
  Puts-logged (refused {s = s} {t = t} w name code there e) =
      refused-written s t w code e ∙ sym (append-nil (d.written s))

  nothing : (l : List Entry) → Sublistᴰ [] l
  nothing [] = slnil
  nothing (e ∷ l) = cons (nothing l)

  pub Puts-Sublistᴰ :
      {s t : d.State} {l ws : List Entry} {r : Outcome} → Puts s l r t ws → Sublistᴰ ws l
  Puts-Sublistᴰ over = slnil
  Puts-Sublistᴰ (written w there e p) = cons-cons refl (Puts-Sublistᴰ p)
  Puts-Sublistᴰ (passed_over w absent p) = cons (Puts-Sublistᴰ p)
  Puts-Sublistᴰ (refused {l = l} w name code there e) = cons (nothing l)

  abbrev pub Wrote : d.State → Outcome × d.State → List Entry → Type 0
  Wrote s o l = (ws : List Entry) × Puts s l o.0 o.1 ws

  Wrote-then_do :
      (s : d.State) (o : Outcome × d.State) (next : d.State → Outcome × d.State) (l m : List Entry)
      → Wrote s o l
      → ((t : d.State) → Wrote t (next t) m)
      → Wrote s (◌then_do◌ d o next) (l ++ m)
  Wrote-then_do s (failed e, t) next l m (ws, p) rest = (ws, Puts-stopped m p)
  Wrote-then_do s (done, t) next l m (ws, p) rest = (ws ++ (rest t).0, Puts-append p (rest t).1)

  checked-Wrote :
      (name : String) (s : d.State) (w : Entry) (o : Option ℕ × d.State)
      → d.exists w.0 s ≡ true
      → d.write w.0 w.1 s ≡ o
      → Wrote s (checked d (set_failed name) o) (w ∷ [])
  checked-Wrote name s w (none, t) there e = (w ∷ [], written w there e over)
  checked-Wrote name s w (some code, t) there e = ([], refused w name code there e)

  put_limit-Wrote :
      (name : String) (text dir : List ℕ) (s : d.State)
      → Wrote s (put_limit d name text dir s) (entry dir name text ∷ [])
  unfolding put_limit
  put_limit-Wrote name text dir s = elim (Bool-cases (d.exists (join dir (chars name)) s)) [
    | inl t ↦ rw (t, put_limit) (checked-Wrote name s (entry dir name text) _ t refl)
    | inr f ↦ rw (f, put_limit) ([], passed_over (entry dir name text) f over)
  ]

  put_if-Wrote :
      (b : Bool) (name : String) (text dir : List ℕ) (s : d.State)
      → Wrote s (put_if d b name text dir s) (when b (entry dir name text))
  unfolding put_if
  put_if-Wrote true name text dir s = put_limit-Wrote name text dir s
  put_if-Wrote false name text dir s = ([], over)

  pub then_put-Wrote :
      (b : Bool) (name : String) (text dir : List ℕ) (s : d.State) (o : Outcome × d.State)
      (l : List Entry)
      → Wrote s o l
      → Wrote s (◌then_do◌ d o (put_if d b name text dir)) (l ++ when b (entry dir name text))
  then_put-Wrote b name text dir s o l w =
      Wrote-then_do s o (put_if d b name text dir) l (when b (entry dir name text)) w
        (put_if-Wrote b name text dir)
