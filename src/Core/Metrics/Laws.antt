-- ===== src/Core/Metrics/Laws.antt =====
-- No recorded duration is lost, whatever the order of the threads' steps (metrics.rs).
use duende.Prelude.{
  ℕ, zero, suc, ◌+◌, ◌%◌, ◌≤◌, ◌<◌, ◌≡◌, refl, ◌∙◌, Bool, false, List, [], ◌∷◌, length, All, wrap64,
  u64_mod, arith,
}
use duende.Core.Metrics.{
  DaemonMetrics, Point, adds_sum, adds_count, loads, tests, exchanges, done, advance,
}
use duende.Core.Metrics.Threads.{
  larger, step_at, run, due_sum, due_count, due_max, total, highest, Fits, sum_of, max_of, starts,
  IsDone,
}

-- One step of one thread: the maximum does not fall, the thread's view stays right, and the sum, the
-- count and the maximum with what is due to them are as before.
record Kept (p p' : Point) (m m' : DaemonMetrics) : Type 0 where
  grows : m.duration_max_us ≤ m'.duration_max_us
  fits : Fits m'.duration_max_us p'
  same_max : larger (due_max p') m'.duration_max_us ≡ larger (due_max p) m.duration_max_us
  same_sum : (m'.duration_sum_us + due_sum p') % u64_mod ≡ (m.duration_sum_us + due_sum p) % u64_mod
  same_count :
      (m'.duration_count + due_count p') % u64_mod ≡ (m.duration_count + due_count p) % u64_mod
  sum_u64 : m.duration_sum_us < u64_mod → m'.duration_sum_us < u64_mod
  count_u64 : m.duration_count < u64_mod → m'.duration_count < u64_mod

advance-Kept :
    (spurious : Bool) (p : Point) (m : DaemonMetrics)
    → Fits m.duration_max_us p
    → Kept p (advance spurious p m).0 m (advance spurious p m).1
unfolding advance
advance-Kept spurious (adds_sum us) m f = record {
  grows = omega arith;
  fits = tt;
  same_max = refl;
  same_sum = omega arith;
  same_count = refl;
  sum_u64 = λ h. ground arith;
  count_u64 = λ h. ground arith;
}
advance-Kept spurious (adds_count us) m f = record {
  grows = omega arith;
  fits = tt;
  same_max = refl;
  same_sum = refl;
  same_count = omega arith;
  sum_u64 = λ h. ground arith;
  count_u64 = λ h. ground arith;
}
advance-Kept spurious (loads us) m f = record {
  grows = omega arith;
  fits = omega arith;
  same_max = refl;
  same_sum = refl;
  same_count = refl;
  sum_u64 = λ h. ground arith;
  count_u64 = λ h. ground arith;
}
advance-Kept spurious (tests us seen) m f = record {
  grows = omega arith;
  fits = ground arith;
  same_max = ground arith;
  same_sum = ground arith;
  same_count = ground arith;
  sum_u64 = λ h. ground arith;
  count_u64 = λ h. ground arith;
}
advance-Kept spurious (exchanges us seen) m f = record {
  grows = ground arith;
  fits = ground arith;
  same_max = ground arith;
  same_sum = ground arith;
  same_count = ground arith;
  sum_u64 = λ h. ground arith;
  count_u64 = λ h. ground arith;
}
advance-Kept spurious done m f = record {
  grows = omega arith;
  fits = tt;
  same_max = refl;
  same_sum = refl;
  same_count = refl;
  sum_u64 = λ h. ground arith;
  count_u64 = λ h. ground arith;
}

-- The same of all threads.
record KeptAll (ps ps' : List Point) (m m' : DaemonMetrics) : Type 0 where
  grows : m.duration_max_us ≤ m'.duration_max_us
  fits : All (Fits m'.duration_max_us) ps'
  same_max :
      larger (highest due_max ps') m'.duration_max_us
      ≡ larger (highest due_max ps) m.duration_max_us
  same_sum :
      (m'.duration_sum_us + total due_sum ps') % u64_mod
      ≡ (m.duration_sum_us + total due_sum ps) % u64_mod
  same_count :
      (m'.duration_count + total due_count ps') % u64_mod
      ≡ (m.duration_count + total due_count ps) % u64_mod
  sum_u64 : m.duration_sum_us < u64_mod → m'.duration_sum_us < u64_mod
  count_u64 : m.duration_count < u64_mod → m'.duration_count < u64_mod

Fits-grows : (a b : ℕ) (p : Point) → a ≤ b → Fits a p → Fits b p
Fits-grows a b p h f = ground arith

All-grows : (a b : ℕ) (ps : List Point) → a ≤ b → All (Fits a) ps → All (Fits b) ps
All-grows a b [] h f = tt
All-grows a b (p ∷ ps) h f = (Fits-grows a b p h f.0, All-grows a b ps h f.1)

larger_left :
    (a b c x y : ℕ) → larger a x ≡ larger b y → larger (larger a c) x ≡ larger (larger b c) y
larger_left a b c x y e = ground arith

larger_right :
    (a b c x y : ℕ) → larger a x ≡ larger b y → larger (larger c a) x ≡ larger (larger c b) y
larger_right a b c x y e = ground arith

step_at-KeptAll :
    (i : ℕ) (spurious : Bool) (ps : List Point) (m : DaemonMetrics)
    → All (Fits m.duration_max_us) ps
    → KeptAll ps (step_at i spurious ps m).0 m (step_at i spurious ps m).1
unfolding step_at
step_at-KeptAll i spurious [] m f = record {
  grows = omega arith;
  fits = tt;
  same_max = refl;
  same_sum = refl;
  same_count = refl;
  sum_u64 = λ h. h;
  count_u64 = λ h. h;
}
step_at-KeptAll zero spurious (p ∷ ps) m f =
    let k = advance-Kept spurious p m f.0 in
    record {
      grows = k.grows;
      fits = (k.fits, All-grows _ _ ps k.grows f.1);
      same_max = larger_left _ _ (highest due_max ps) _ _ k.same_max;
      same_sum = omega (arith, k.same_sum);
      same_count = omega (arith, k.same_count);
      sum_u64 = k.sum_u64;
      count_u64 = k.count_u64;
    }
step_at-KeptAll (suc i) spurious (p ∷ ps) m f =
    let k = step_at-KeptAll i spurious ps m f.1 in
    record {
      grows = k.grows;
      fits = (Fits-grows _ _ p k.grows f.0, k.fits);
      same_max = larger_right _ _ (due_max p) _ _ k.same_max;
      same_sum = omega (arith, k.same_sum);
      same_count = omega (arith, k.same_count);
      sum_u64 = k.sum_u64;
      count_u64 = k.count_u64;
    }

run-KeptAll :
    (schedule : List (ℕ × Bool)) (ps : List Point) (m : DaemonMetrics)
    → All (Fits m.duration_max_us) ps
    → KeptAll ps (run schedule (ps, m)).0 m (run schedule (ps, m)).1
unfolding run
run-KeptAll [] ps m f = record {
  grows = omega arith;
  fits = f;
  same_max = refl;
  same_sum = refl;
  same_count = refl;
  sum_u64 = λ h. h;
  count_u64 = λ h. h;
}
run-KeptAll ((i, spurious) ∷ rest) ps m f =
    let k = step_at-KeptAll i spurious ps m f in
    let r = run-KeptAll rest (step_at i spurious ps m).0 (step_at i spurious ps m).1 k.fits in
    record {
      grows = omega (arith, k.grows, r.grows);
      fits = r.fits;
      same_max = r.same_max ∙ k.same_max;
      same_sum = r.same_sum ∙ k.same_sum;
      same_count = r.same_count ∙ k.same_count;
      sum_u64 = λ h. r.sum_u64 (k.sum_u64 h);
      count_u64 = λ h. r.count_u64 (k.count_u64 h);
    }

-- Threads that have ended owe nothing.
done_owe :
    (ps : List Point)
    → All IsDone ps
    → (total due_sum ps ≡ 0) × (total due_count ps ≡ 0) × (highest due_max ps ≡ 0)
done_owe [] d = (refl, refl, refl)
done_owe (p ∷ ps) d = ground (arith, done_owe ps d.1)

starts_owe :
    (ds : List ℕ)
    → (total due_sum (starts ds) ≡ sum_of ds)
      × (total due_count (starts ds) ≡ length ds)
      × (highest due_max (starts ds) ≡ max_of ds)
unfolding starts
starts_owe [] = (refl, refl, refl)
starts_owe (d ∷ ds) = ground (arith, starts_owe ds)

starts-Fits : (top : ℕ) (ds : List ℕ) → All (Fits top) (starts ds)
unfolding starts
starts-Fits top [] = tt
starts-Fits top (d ∷ ds) = (tt, starts-Fits top ds)

-- Threads that each record one of the durations, one step of one thread at a time in any order and
-- with any spurious failures of the weak exchange: once all of them have ended, the maximum is the
-- largest of the maximum before and the durations, each taken in whole microseconds modulo 2^64, and
-- the sum and the count have grown by these and by their number, modulo 2^64.
pub record_duration-run :
    (schedule : List (ℕ × Bool)) (ds : List ℕ) (m : DaemonMetrics)
    → m.duration_sum_us < u64_mod
    → m.duration_count < u64_mod
    → All IsDone (run schedule (starts ds, m)).0
    → ((run schedule (starts ds, m)).1.duration_max_us ≡ larger (max_of ds) m.duration_max_us)
      × ((run schedule (starts ds, m)).1.duration_sum_us ≡ wrap64 (m.duration_sum_us + sum_of ds))
      × ((run schedule (starts ds, m)).1.duration_count ≡ wrap64 (m.duration_count + length ds))
record_duration-run schedule ds m a b d =
    let k = run-KeptAll schedule (starts ds) m (starts-Fits m.duration_max_us ds) in
    let (s, c, h) = done_owe (run schedule (starts ds, m)).0 d in
    let (s', c', h') = starts_owe ds in
    (
      ground (arith, k.same_max, h, h'),
      omega (arith, k.same_sum, k.sum_u64 a, s, s'),
      omega (arith, k.same_count, k.count_u64 b, c, c'),
    )

-- A thread that runs alone, and whose exchanges do not fail without cause.
unfoldable pub alone : ℕ → Point → DaemonMetrics → Point × DaemonMetrics
alone zero p m = (p, m)
alone (suc n) p m = alone n (advance false p m).0 (advance false p m).1

-- Wherever a thread stands in recording a duration, and whatever other threads did before, it ends
-- within five steps if it then runs alone without spurious failures.
pub alone_ends : (p : Point) (m : DaemonMetrics) → (alone 5 p m).0 ≡ done
unfolding alone advance
alone_ends p m = ground arith
