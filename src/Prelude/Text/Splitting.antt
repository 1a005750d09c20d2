-- ===== src/Prelude/Text/Splitting.antt =====
-- The words of a text are those it was put together from, and the last of a character is found.
use mathlib.Core.Path.{◌≡◌, refl, sym, ◌∙◌, ap}
use mathlib.Core.Logic.{◌≢◌}
use mathlib.Core.Bool.{false}
use mathlib.Core.Option.{none, some}
use mathlib.Core.List.{List, [], ◌∷◌, ◌++◌, append_assoc}
use Prim.Native.Nat.{ℕ}
use native.Mathlib.Omega.{arith}
use duende.Prelude.Lists.{All, append_nil}
use duende.Prelude.Text.{is_whitespace, split_from, put_word, split_whitespace, unwords, after_last}

-- A word is not empty and has no white space and no closing parenthesis (41).
abbrev pub Plain : ℕ → Type 0
Plain c = (is_whitespace c ≡ false) × (c ≢ 41)

abbrev pub IsWord : List ℕ → Type 0
IsWord w = (w ≢ []) × All Plain w

pub split_from-word :
    (begun w rest : List ℕ)
    → All Plain w
    → split_from begun (w ++ rest) ≡ split_from (begun ++ w) rest
unfolding split_from
split_from-word begun [] rest p = ap (λ (t : List ℕ). split_from t rest) (sym (append_nil begun))
split_from-word begun (c ∷ cs) rest p = rw p.0.0 (
    split_from-word (begun ++ (c ∷ [])) cs rest p.1
    ∙ ap (λ (t : List ℕ). split_from t rest) (append_assoc begun (c ∷ []) cs))

split_from-space :
    (begun rest : List ℕ) → split_from begun (32 ∷ rest) ≡ put_word begun (split_from [] rest)
unfolding split_from is_whitespace
split_from-space begun rest = refl

pub put_word-word : (w : List ℕ) (ws : List (List ℕ)) → w ≢ [] → put_word w ws ≡ w ∷ ws
put_word-word [] ws n = elim (n refl) [ ]
put_word-word (c ∷ cs) ws n = refl

pub split_from_end : (w : List ℕ) → split_from w [] ≡ put_word w []
unfolding split_from
split_from_end w = refl

-- Words with one space between them are split into those words.
pub split_whitespace-unwords :
    (ws : List (List ℕ)) → All IsWord ws → split_whitespace (unwords ws) ≡ ws
unfolding split_whitespace unwords
split_whitespace-unwords [] p = unfold split_from in refl
split_whitespace-unwords (w ∷ []) p =
    ap (split_from []) (sym (append_nil w))
    ∙ split_from-word [] w [] p.0.1
    ∙ split_from_end w
    ∙ put_word-word w [] p.0.0
split_whitespace-unwords (w ∷ v ∷ ws) p =
    split_from-word [] w (32 ∷ unwords (v ∷ ws)) p.0.1
    ∙ split_from-space w (unwords (v ∷ ws))
    ∙ put_word-word w (split_from [] (unwords (v ∷ ws))) p.0.0
    ∙ ap (λ (t : List (List ℕ)). w ∷ t) (split_whitespace-unwords (v ∷ ws) p.1)

pub after_last_skip :
    (x : ℕ) (rest : List ℕ) → x ≢ 41 → after_last 41 rest ≡ none → after_last 41 (x ∷ rest) ≡ none
unfolding after_last
after_last_skip x rest n e = rw e (ground (arith, n))

after_last-none :
    (w rest : List ℕ) → All Plain w → after_last 41 rest ≡ none → after_last 41 (w ++ rest) ≡ none
after_last-none [] rest p e = e
after_last-none (c ∷ cs) rest p e =
    after_last_skip c (cs ++ rest) p.0.1 (after_last-none cs rest p.1 e)

pub after_last-unwords : (ws : List (List ℕ)) → All IsWord ws → after_last 41 (unwords ws) ≡ none
unfolding unwords
after_last-unwords [] p = unfold after_last in refl
after_last-unwords (w ∷ []) p =
    ap (after_last 41) (sym (append_nil w)) ∙ after_last-none w [] p.0.1 (unfold after_last in refl)
after_last-unwords (w ∷ v ∷ ws) p =
    after_last-none w (32 ∷ unwords (v ∷ ws)) p.0.1
      (after_last_skip 32 (unwords (v ∷ ws)) (omega arith) (after_last-unwords (v ∷ ws) p.1))

pub after_last-append :
    (c : ℕ) (before rest : List ℕ)
    → after_last c rest ≡ none
    → after_last c (before ++ (c ∷ rest)) ≡ some rest
unfolding after_last
after_last-append c [] rest e = rw e (ground arith)
after_last-append c (x ∷ xs) rest e = rw (after_last-append c xs rest e) refl
