-- ===== src/Policy/Limiter/Removal.antt =====
-- What `remove` writes and answers (limiter.rs).
use mathlib.Core.List.{append_assoc, append-nil}
use duende.Prelude.{
  ℕ, ◌≡◌, refl, sym, ap, ◌∙◌, ◌≢◌, true, none, some, List, [], ◌∷◌, ◌++◌, map, Option-cases, inl,
  inr,
}
use duende.Prelude.Disk.{Disk}
use duende.Prelude.Text.{chars, join, trim, lines_from}
use duende.Prelude.Decimal.{to_string, parse}
use duende.Policy.Limiter.{
  ResourceLimiter, checked, remove_failed, cgroup_path, move_back, move_lines, move_all, remove,
}

-- The lines that are numbers of 32 bits, white space around them aside.
abbrev pub numbers : List (List ℕ) → List ℕ
numbers [] = []
numbers (line ∷ rest) = elim (parse 4294967296 (trim line)) [
  | none ↦ numbers rest
  | some pid ↦ pid ∷ numbers rest
]

module _ (d : Disk) where
  -- Every write succeeds.
  abbrev pub Takes : Type 0
  Takes = (path text : List ℕ) (s : d.State) → (d.write path text s).0 ≡ none

  move_back-written :
      (parent : List ℕ) (lines : List (List ℕ)) (s : d.State)
      → Takes
      → d.written (move_back d parent lines s)
        ≡ d.written s ++ map (λ pid. (parent, to_string pid)) (numbers lines)
  unfolding move_back
  move_back-written parent [] s takes = sym (append-nil (d.written s))
  move_back-written parent (line ∷ rest) s takes =
      elim (Option-cases (parse 4294967296 (trim line))) [
        | inl e ↦ rw (e, move_back, numbers) (move_back-written parent rest s takes)
        | inr (pid, e) ↦
            let s' = (d.write parent (to_string pid) s).1 in
            let moved = (parent, to_string pid) ∷ [] in
            let later = map (λ pid'. (parent, to_string pid')) (numbers rest) in
            rw (e, move_back, numbers)
              (move_back-written parent rest s' takes
                ∙ ap (λ (l : List (List ℕ × List ℕ)). l ++ later)
                    (d.write_done parent (to_string pid) s (takes parent (to_string pid) s))
                ∙ append_assoc (d.written s) moved later)
      ]

  move_lines-written :
      (parent procs : List ℕ) (s : d.State)
      → trim procs ≢ []
      → Takes
      → d.written (move_lines d parent procs s)
        ≡ d.written s ++ map (λ pid. (parent, to_string pid)) (numbers (lines_from [] procs))
  unfolding move_lines
  move_lines-written parent procs s n takes = go (trim procs) refl
    where
      go :
          (l : List ℕ)
          → trim procs ≡ l
          → d.written (move_lines d parent procs s)
            ≡ d.written s ++ map (λ pid. (parent, to_string pid)) (numbers (lines_from [] procs))
      go [] e = absurd (n e)
      go (c ∷ cs) e = rw (e, move_lines) (move_back-written parent (lines_from [] procs) s takes)

  move_all_found :
      (base dir procs : List ℕ) (s : d.State)
      → d.read_to_string (join dir (chars "cgroup.procs")) s ≡ some procs
      → move_all d base dir s ≡ move_lines d (join base (chars "cgroup.procs")) procs s
  unfolding move_all
  move_all_found base dir procs s e = rw (e, move_all) refl

  -- Where the group is there and has processes, and writes succeed, `remove` writes each process
  -- number of the group's file to the file of the base, in order, and nothing else; then it removes
  -- the directory and answers with the outcome of that.
  pub remove-written :
      {F : Type 0} (r : ResourceLimiter F) (pid : ℕ) (s : d.State) (procs : List ℕ)
      → d.exists (cgroup_path r pid) s ≡ true
      → d.read_to_string (join (cgroup_path r pid) (chars "cgroup.procs")) s ≡ some procs
      → trim procs ≢ []
      → Takes
      → (s' : d.State) × (remove d r pid s
          ≡ checked d remove_failed (d.remove_dir (cgroup_path r pid) s'))
        × (d.written s'
            ≡ d.written s
              ++ map
                  (λ n. (join r.cgroup_base (chars "cgroup.procs"), to_string n))
                  (numbers (lines_from [] procs)))
  unfolding remove
  remove-written r pid s procs there found some_left takes =
      let s' = move_lines d (join r.cgroup_base (chars "cgroup.procs")) procs s in
      (
        s',
        rw (there, remove)
            (rw (move_all_found r.cgroup_base (cgroup_path r pid) procs s found) refl),
        move_lines-written (join r.cgroup_base (chars "cgroup.procs")) procs s some_left takes,
      )
