-- ===== src/Core/Adapters/Launchd/Listing.antt =====
-- How the adapter reads the table that `launchctl list` prints (core's adapters/launchd.rs).
use duende.Prelude.{
  append_nil, ℕ, ◌≡◌, refl, sym, ap, ◌∙◌, false, some, List, [], ◌∷◌, ◌++◌, All, if◌then◌else◌,
  arith,
}
use duende.Prelude.Text.{chars, same_text, contains, trim}
use mathlib.Core.List.{append_assoc}
use duende.Prelude.Text.Finding.{Occurs, IsFilled, Occurs-contains, Lacks}
use duende.Core.Types.{DaemonStatus, running}
use duende.Core.Adapters.Tool.{parse_i32}
use duende.Core.Adapters.Launchd.{split_from, exit_status, of_columns, status_of_lines}

-- A line of the table: the process, its last exit code and the service's label.
abbrev pub row : List ℕ → List ℕ → List ℕ → List ℕ
row pid code label = pid ++ (9 ∷ (code ++ (9 ∷ label)))

pub split_from-column :
    (begun column rest : List ℕ)
    → Lacks 9 column
    → split_from 9 begun (column ++ (9 ∷ rest)) ≡ (begun ++ column) ∷ split_from 9 [] rest
unfolding split_from
split_from-column begun [] rest h =
    ap (λ (t : List ℕ). t ∷ split_from 9 [] rest) (sym (append_nil begun))
split_from-column begun (c ∷ cs) rest h =
    let later = split_from-column (begun ++ (c ∷ [])) cs rest h.1 in
    let skip : split_from 9 begun (c ∷ (cs ++ (9 ∷ rest)))
        ≡ split_from 9 (begun ++ (c ∷ [])) (cs ++ (9 ∷ rest)) =
      ground (arith, h.0) in
    skip ∙ later ∙ ap (λ (t : List ℕ). t ∷ split_from 9 [] rest) (append_assoc begun (c ∷ []) cs)

pub split_from_last :
    (begun column : List ℕ) → Lacks 9 column → split_from 9 begun column ≡ (begun ++ column) ∷ []
unfolding split_from
split_from_last begun [] h = ap (λ (t : List ℕ). t ∷ []) (sym (append_nil begun))
split_from_last begun (c ∷ cs) h =
    let skip : split_from 9 begun (c ∷ cs) ≡ split_from 9 (begun ++ (c ∷ [])) cs =
      ground (arith, h.0) in
    skip
    ∙ split_from_last (begun ++ (c ∷ [])) cs h.1
    ∙ ap (λ (t : List ℕ). t ∷ []) (append_assoc begun (c ∷ []) cs)

-- What a row says.
abbrev pub row_status : List ℕ → List ℕ → DaemonStatus
row_status pid code =
    if same_text (trim pid) (chars "-") then exit_status (parse_i32 (trim code)) else running

of_columns-row :
    (pid code label : List ℕ)
    → Lacks 9 pid
    → Lacks 9 code
    → of_columns (split_from 9 [] (row pid code label)) ≡ some (row_status pid code)
of_columns-row pid code label h k = ap of_columns (
    split_from-column [] pid (code ++ (9 ∷ label)) h
    ∙ ap (λ (t : List (List ℕ)). pid ∷ t) (split_from-column [] code label k))

status_of_lines-skip :
    (label : List ℕ) (before rest : List (List ℕ))
    → All (λ line. contains label line ≡ false) before
    → status_of_lines label (before ++ rest) ≡ status_of_lines label rest
unfolding status_of_lines
status_of_lines-skip label [] rest h = refl
status_of_lines-skip label (line ∷ before) rest h =
    rw (h.0, status_of_lines) (status_of_lines-skip label before rest h.1)

-- The status of a label is what the first line of the table says in which the label occurs, where that
-- line is a row; the row's own label need only contain the one that is asked for.
pub status_of_lines-row :
    (label pid code own : List ℕ) (before rest : List (List ℕ))
    → IsFilled label
    → Lacks 9 pid
    → Lacks 9 code
    → Occurs label own
    → All (λ line. contains label line ≡ false) before
    → status_of_lines label (before ++ (row pid code own ∷ rest)) ≡ row_status pid code
unfolding status_of_lines
status_of_lines-row label pid code own before rest filled h k (front, back, e) earlier =
    let here : Occurs label (row pid code own) = (
      pid ++ (9 ∷ (code ++ (9 ∷ front))),
      back,
      ap (row pid code) e
          ∙ sym (
              append_assoc pid (9 ∷ (code ++ (9 ∷ front))) (label ++ back)
              ∙ ap (λ (t : List ℕ). pid ++ (9 ∷ t))
                  (append_assoc code (9 ∷ front) (label ++ back))),
    ) in
    status_of_lines-skip label before (row pid code own ∷ rest) earlier
    ∙ rw (Occurs-contains label (row pid code own) filled here, status_of_lines)
        (rw (of_columns-row pid code own h k) refl)
