-- ===== src/Observe/Tracer/Ranking.antt =====
-- The critical path of a report is the five calls with the largest counts (tracer.rs).
use mathlib.Core.List.{Permᴰ}
use mathlib.Core.List.Permᴰ.{nil, cons, swap, trans}
use duende.Prelude.{
  ℕ, ◌≤◌, ◌≡◌, refl, List, [], ◌∷◌, arith, Bool-cases, inl, inr, leb, All, take, map,
}
use duende.Observe.Tracer.{insert_entry, sort_entries, build_critical_path, path_text}

-- No entry has a larger count than one before it.
abbrev pub Descending : List (List ℕ × ℕ) → Type 0
Descending [] = Unit
Descending (e ∷ rest) = All (λ f. f.1 ≤ e.1) rest × Descending rest

All-le : (b c : ℕ) (l : List (List ℕ × ℕ)) → b ≤ c → All (λ f. f.1 ≤ b) l → All (λ f. f.1 ≤ c) l
All-le b c [] h all = tt
All-le b c (f ∷ rest) h (p, all) = (omega arith, All-le b c rest h all)

All-insert_entry :
    (b : ℕ) (e : List ℕ × ℕ) (l : List (List ℕ × ℕ))
    → e.1 ≤ b
    → All (λ f. f.1 ≤ b) l
    → All (λ f. f.1 ≤ b) (insert_entry e l)
unfolding insert_entry
All-insert_entry b e [] h all = (h, tt)
All-insert_entry b e (f ∷ rest) h (p, all) = elim (Bool-cases (leb f.1 e.1)) [
  | inl t ↦ rw (t, insert_entry) (h, (p, all))
  | inr g ↦ rw (g, insert_entry) (p, All-insert_entry b e rest h all)
]

insert_entry-Descending :
    (e : List ℕ × ℕ) (l : List (List ℕ × ℕ)) → Descending l → Descending (insert_entry e l)
unfolding insert_entry
insert_entry-Descending e [] d = (tt, tt)
insert_entry-Descending e (f ∷ rest) (all, d) = elim (Bool-cases (leb f.1 e.1)) [
  | inl t ↦
      let below : f.1 ≤ e.1 = ground arith in
      rw (t, insert_entry) ((below, All-le f.1 e.1 rest below all), (all, d))
  | inr g ↦
      let above : e.1 ≤ f.1 = ground arith in
      rw (g, insert_entry) (All-insert_entry f.1 e rest above all, insert_entry-Descending e rest d)
]

sort_entries-Descending : (l : List (List ℕ × ℕ)) → Descending (sort_entries l)
unfolding sort_entries
sort_entries-Descending [] = tt
sort_entries-Descending (e ∷ rest) =
    insert_entry-Descending e (sort_entries rest) (sort_entries-Descending rest)

Permᴰ-same : (l : List (List ℕ × ℕ)) → Permᴰ l l
Permᴰ-same [] = nil
Permᴰ-same (e ∷ l) = cons refl (Permᴰ-same l)

insert_entry-Permᴰ : (e : List ℕ × ℕ) (l : List (List ℕ × ℕ)) → Permᴰ (insert_entry e l) (e ∷ l)
unfolding insert_entry
insert_entry-Permᴰ e [] = Permᴰ-same (e ∷ [])
insert_entry-Permᴰ e (f ∷ rest) = elim (Bool-cases (leb f.1 e.1)) [
  | inl t ↦ rw (t, insert_entry) (Permᴰ-same (e ∷ f ∷ rest))
  | inr g ↦ rw (g, insert_entry) (trans (cons refl (insert_entry-Permᴰ e rest)) (swap refl refl))
]

sort_entries-Permᴰ : (l : List (List ℕ × ℕ)) → Permᴰ (sort_entries l) l
unfolding sort_entries
sort_entries-Permᴰ [] = nil
sort_entries-Permᴰ (e ∷ rest) =
    trans (insert_entry-Permᴰ e (sort_entries rest)) (cons refl (sort_entries-Permᴰ rest))

-- The critical path names the first five entries, or all if there are fewer, of an arrangement of the
-- counts in which none is larger than one before it.
pub build_critical_path-Descending :
    (counts : List (List ℕ × ℕ))
    → (l : List (List ℕ × ℕ)) × Permᴰ l counts
      × Descending l
      × (build_critical_path counts ≡ map path_text (take 5 l))
unfolding build_critical_path
build_critical_path-Descending counts =
    (sort_entries counts, sort_entries-Permᴰ counts, sort_entries-Descending counts, refl)
