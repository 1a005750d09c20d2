-- ===== src/Platform/MacOs/Listing.antt =====
-- The adapter reads the row of the service it is asked for (crates/duende-platform/src/macos.rs).
use duende.Prelude.{ℕ, ◌≡◌, ◌≢◌, refl, ap, ◌∙◌, inl, inr, List, [], ◌∷◌, ◌++◌, All, Bool-cases}
use duende.Prelude.Text.{same_text, trim}
use duende.Prelude.Text.Finding.{Lacks, same_text_refl, same_text_eq}
use duende.Core.Types.{created}
use duende.Core.Adapters.Launchd.{split_from}
use duende.Core.Adapters.Launchd.Listing.{row, split_from-column, split_from_last}
use duende.Platform.MacOs.{status_of, status_of_lines}

-- A row of the table: the process, the last exit code and the label, none of which has a tab.
pub record Row : Type 0 where
  pub pid : List ℕ
  pub code : List ℕ
  pub label : List ℕ

abbrev pub IsRow : Row → Type 0
IsRow r = Lacks 9 r.pid × Lacks 9 r.code × Lacks 9 r.label

abbrev pub lines_of : List Row → List (List ℕ)
lines_of [] = []
lines_of (r ∷ rs) = row r.pid r.code r.label ∷ lines_of rs

columns_lem :
    (r : Row) → IsRow r → split_from 9 [] (row r.pid r.code r.label) ≡ r.pid ∷ r.code ∷ r.label ∷ []
columns_lem r h =
    split_from-column [] r.pid (r.code ++ (9 ∷ r.label)) h.0
    ∙ ap (λ (t : List (List ℕ)). r.pid ∷ t)
        (split_from-column [] r.code r.label h.1
          ∙ ap (λ (t : List (List ℕ)). r.code ∷ t) (split_from_last [] r.label h.2))

-- The status of a service whose row is in the table is what its own row says, where the rows before
-- have other labels: also labels that contain its own.
pub status_of_lines-row_own :
    (before after : List Row) (r : Row)
    → All IsRow before
    → All (λ other. other.label ≢ r.label) before
    → IsRow r
    → status_of_lines r.label (lines_of (before ++ (r ∷ after)))
      ≡ status_of (trim r.pid) (trim r.code)
unfolding status_of_lines
status_of_lines-row_own [] after r h others k =
    rw (columns_lem r k, status_of_lines) (rw (same_text_refl r.label) refl)
status_of_lines-row_own (other ∷ before) after r h others k =
    elim (Bool-cases (same_text other.label r.label)) [
      | inl same ↦ absurd (others.0 (same_text_eq other.label r.label same))
      | inr differ ↦
          rw (columns_lem other h.0, status_of_lines)
            (rw differ (status_of_lines-row_own before after r h.1 others.1 k))
    ]

-- A service without a row is reported as created.
pub status_of_lines-absent :
    (rows : List Row) (label : List ℕ)
    → All IsRow rows
    → All (λ other. other.label ≢ label) rows
    → status_of_lines label (lines_of rows) ≡ created
unfolding status_of_lines
status_of_lines-absent [] label h others = refl
status_of_lines-absent (other ∷ rows) label h others =
    elim (Bool-cases (same_text other.label label)) [
      | inl same ↦ absurd (others.0 (same_text_eq other.label label same))
      | inr differ ↦
          rw (columns_lem other h.0, status_of_lines)
            (rw differ (status_of_lines-absent rows label h.1 others.1))
    ]
