-- ===== src/Observe/Tracer/Counting.antt =====
-- The tracer's counts are those of the samples taken since it was attached (tracer.rs).
use duende.Prelude.{
  ℕ, ◌+◌, ◌≡◌, refl, sym, ap, ◌∙◌, Bool, true, false, Option, none, some, List, [], ◌∷◌, arith,
  Bool-cases, Option-cases, inl, inr,
}
use duende.Prelude.Text.Finding.{same_text_refl, same_text_eq}
use duende.Prelude.Text.{same_text}
use duende.Observe.Tracer.Syscalls.{read_current_syscall}
use duende.Observe.Tracer.Patterns.{Arithmetic, count_of, total}
use duende.Observe.Tracer.{DaemonTracer, bump, sampled, collect, collect_linux, attach, reported}

total-bump : (name : List ℕ) (m : List (List ℕ × ℕ)) → total (bump name m) ≡ total m + 1
unfolding total bump
total-bump name [] = refl
total-bump name ((key, n) ∷ rest) = ground (arith, total-bump name rest)

count_of-bump :
    (name : List ℕ) (m : List (List ℕ × ℕ)) → count_of name (bump name m) ≡ count_of name m + 1
unfolding count_of bump
count_of-bump name [] = rw (same_text_refl name) refl
count_of-bump name ((key, n) ∷ rest) = elim (Bool-cases (same_text key name)) [
  | inl t ↦ rw t (rw t refl)
  | inr f ↦ rw f (rw f (count_of-bump name rest))
]

count_of-bump_other :
    (name other : List ℕ) (m : List (List ℕ × ℕ))
    → same_text name other ≡ false
    → count_of other (bump name m) ≡ count_of other m
unfolding count_of bump
count_of-bump_other name other [] h = rw h refl
count_of-bump_other name other ((key, n) ∷ rest) h = elim (Bool-cases (same_text key name)) [
  | inl t ↦
      let off : same_text key other ≡ false =
        ap (λ k. same_text k other) (same_text_eq key name t) ∙ h in
      rw t (rw off refl)
  | inr f ↦ rw f (rw (count_of-bump_other name other rest h) refl)
]

abbrev pub one_if : Bool → ℕ
one_if true = 1
one_if false = 0

count_of-bump_lem :
    (name other : List ℕ) (m : List (List ℕ × ℕ))
    → count_of other (bump name m) ≡ count_of other m + one_if (same_text name other)
count_of-bump_lem name other m = elim (Bool-cases (same_text name other)) [
  | inl t ↦ rw (t, sym (same_text_eq name other t)) (count_of-bump name m)
  | inr f ↦ rw f (count_of-bump_other name other m f ∙ omega arith)
]

-- A sample's readings: the contents of the two files.
abbrev pub Reading : Type 0
Reading = Option (List ℕ) × Option (List ℕ)

abbrev pub hit : List ℕ → Option (List ℕ) → ℕ
hit name none = 0
hit name (some read) = one_if (same_text read name)

-- How many of the readings name this call, and how many name any.
abbrev pub occurrences : List ℕ → List (Option (List ℕ) × Option (List ℕ)) → ℕ
unfolding read_current_syscall
occurrences name [] = 0
occurrences name ((syscall, wchan) ∷ rest) =
    hit name (read_current_syscall syscall) + occurrences name rest

abbrev pub one_if_some : Option (List ℕ) → ℕ
one_if_some none = 0
one_if_some (some name) = 1

abbrev pub samples : List (Option (List ℕ) × Option (List ℕ)) → ℕ
unfolding read_current_syscall
samples [] = 0
samples ((syscall, wchan) ∷ rest) = one_if_some (read_current_syscall syscall) + samples rest

module _ (a : Arithmetic) where
  open a use {f64}
  open f64 use {Carrier}

  unfoldable pub collect_all :
      List (Option (List ℕ) × Option (List ℕ)) → DaemonTracer Carrier → DaemonTracer Carrier
  unfolding collect
  collect_all [] t = t
  collect_all ((syscall, wchan) ∷ rest) t = collect_all rest (collect a syscall wchan t).1

  abbrev taken : Option (List ℕ) → DaemonTracer Carrier → DaemonTracer Carrier
  unfolding sampled
  taken none t = t
  taken (some name) t = sampled a name t

  collect_linux-taken :
      (syscall wchan : Option (List ℕ)) (t : DaemonTracer Carrier) (pid : ℕ)
      → (collect_linux a pid syscall wchan t).1 ≡ taken (read_current_syscall syscall) t
  unfolding collect_linux reported taken
  collect_linux-taken syscall wchan t pid = elim (Option-cases (read_current_syscall syscall)) [
    | inl e ↦ rw (e, collect_linux) refl
    | inr (name, e) ↦ rw (e, collect_linux) refl
  ]

  collect-taken :
      (syscall wchan : Option (List ℕ)) (t : DaemonTracer Carrier) (pid : ℕ)
      → t.attached_pid ≡ some pid
      → (collect a syscall wchan t).1 ≡ taken (read_current_syscall syscall) t
  unfolding collect
  collect-taken syscall wchan t pid e = simp (e, collect) (collect_linux-taken syscall wchan t pid)

  -- What the counts are, name by name and together, against those at the start.
  abbrev pub Counted :
      DaemonTracer Carrier
      → List (Option (List ℕ) × Option (List ℕ))
      → List ℕ
      → ℕ
      → DaemonTracer Carrier
      → Type 0
  Counted t readings name pid u =
      (count_of name u.syscall_counts ≡ count_of name t.syscall_counts + occurrences name readings)
      × (total u.syscall_counts ≡ total t.syscall_counts + samples readings)
      × (u.sample_count ≡ t.sample_count + samples readings)
      × (u.attached_pid ≡ some pid)

  taken-Counted :
      (o : Option (List ℕ)) (t : DaemonTracer Carrier) (name : List ℕ)
      → (count_of name (taken o t).syscall_counts ≡ count_of name t.syscall_counts + hit name o)
        × (total (taken o t).syscall_counts ≡ total t.syscall_counts + one_if_some o)
        × ((taken o t).sample_count ≡ t.sample_count + one_if_some o)
        × ((taken o t).attached_pid ≡ t.attached_pid)
  unfolding taken sampled
  taken-Counted none t name = (omega arith, omega arith, omega arith, refl)
  taken-Counted (some read) t name =
      (count_of-bump_lem read name t.syscall_counts, total-bump read t.syscall_counts, refl, refl)

  collect_all-Counted :
      (readings : List Reading) (t : DaemonTracer Carrier) (name : List ℕ) (pid : ℕ)
      → t.attached_pid ≡ some pid
      → Counted t readings name pid (collect_all readings t)
  unfolding collect_all occurrences samples
  collect_all-Counted [] t name pid e = (omega arith, omega arith, omega arith, e)
  collect_all-Counted ((syscall, wchan) ∷ rest) t name pid e =
      let u = (collect a syscall wchan t).1 in
      let o = read_current_syscall syscall in
      let same = collect-taken syscall wchan t pid e in
      let (p, q, r, k) = taken-Counted o t name in
      let (p', q', r', k') = collect_all-Counted rest (taken o t) name pid (k ∙ e) in
      rw (same, collect_all) (omega (arith, p, p'), omega (arith, q, q'), omega (arith, r, r'), k')

  -- After a tracer was attached, and whatever was read in each collection since: each call's count is
  -- the number of readings that named it, the counts together are the number of samples, which is the
  -- number of readings that named a call, and the tracer is attached to the same process.
  pub collect_all-attach :
      (readings : List (Option (List ℕ) × Option (List ℕ))) (t : DaemonTracer Carrier)
      (name : List ℕ) (pid now : ℕ)
      → (count_of name (collect_all readings (attach a true pid now t).1).syscall_counts
          ≡ occurrences name readings)
        × (total (collect_all readings (attach a true pid now t).1).syscall_counts
            ≡ (collect_all readings (attach a true pid now t).1).sample_count)
        × ((collect_all readings (attach a true pid now t).1).sample_count ≡ samples readings)
        × ((collect_all readings (attach a true pid now t).1).attached_pid ≡ some pid)
  unfolding count_of total
  collect_all-attach readings t name pid now =
      let (p, q, r, k) = collect_all-Counted readings (attach a true pid now t).1 name pid refl in
      (omega (arith, p), omega (arith, q, r), omega (arith, r), k)
