-- ===== src/Core/Adapter/Stopping.antt =====
-- The default `stop` ends, and what its answer means (adapter.rs).
use duende.Prelude.{
  ℕ, zero, suc, ◌+◌, ◌-◌, ◌*◌, ◌/◌, ◌≤◌, ◌≡◌, refl, ◌∙◌, ◌⊎◌, inl, inr, true, false, Option, some,
  ltb, arith, Bool-cases,
}
use duende.Core.Types.{DaemonStatus, is_terminal, term}
use duende.Core.Adapter.{
  PlatformAdapter, PlatformError, PlatformResult, ok, err, timeout, DaemonHandle, seen_terminal,
  stop_pause, wait, signalled, stop_daemon,
}

module _ (a : PlatformAdapter) where
  -- The last call was a query that answered with a state in which the daemon has ended.
  abbrev pub Ended : DaemonHandle → a.State → Type 0
  Ended h t =
      (s : a.State) × (d : DaemonStatus) × ((a.status h s).0 ≡ ok d)
      × ((a.status h s).1 ≡ t)
      × (is_terminal d ≡ true)

  abbrev pub Waited : DaemonHandle → ℕ → ℕ → PlatformResult (Unit {0}) → a.State → Type 0
  Waited h limit start r t =
      ((r ≡ ok tt) × Ended h t) ⊎ ((r ≡ err (timeout limit)) × (start + limit ≤ a.now t))

  Finished : DaemonHandle → ℕ → ℕ → Option (PlatformResult (Unit {0}) × a.State) → Type 0
  Finished h limit start o =
      (r : PlatformResult (Unit {0})) × (t : a.State) × (o ≡ some (r, t)) × Waited h limit start r t

  seen_lem :
      (r : PlatformResult DaemonStatus)
      → seen_terminal r ≡ true
      → (d : DaemonStatus) × (r ≡ ok d) × (is_terminal d ≡ true)
  unfolding seen_terminal
  seen_lem (err e) h = absurd (cc)
  seen_lem (ok d) h = (d, refl, h)

  wait_late :
      (fuel limit start : ℕ) (h : DaemonHandle) (s : a.State)
      → ltb (a.now s - start) limit ≡ false
      → wait a (suc fuel) limit start h s ≡ some (err (timeout limit), s)
  unfolding wait
  wait_late fuel limit start h s e = rw (e, wait) refl

  pub wait_seen :
      (fuel limit start : ℕ) (h : DaemonHandle) (s : a.State)
      → ltb (a.now s - start) limit ≡ true
      → seen_terminal (a.status h s).0 ≡ true
      → wait a (suc fuel) limit start h s ≡ some (ok tt, (a.status h s).1)
  unfolding wait
  wait_seen fuel limit start h s e f = rw (e, wait) (rw f refl)

  wait_again :
      (fuel limit start : ℕ) (h : DaemonHandle) (s : a.State)
      → ltb (a.now s - start) limit ≡ true
      → seen_terminal (a.status h s).0 ≡ false
      → wait a (suc fuel) limit start h s
        ≡ wait a fuel limit start h (a.sleep stop_pause (a.status h s).1)
  unfolding wait
  wait_again fuel limit start h s e f = rw (e, wait) (rw f refl)

  wait_round :
      (fuel limit start : ℕ) (h : DaemonHandle) (s : a.State)
      → start ≤ a.now s
      → (a.now s + 1 ≤ start + limit
          → Finished h limit start
              (wait a fuel limit start h (a.sleep stop_pause (a.status h s).1)))
      → Finished h limit start (wait a (suc fuel) limit start h s)
  unfolding Finished
  wait_round fuel limit start h s past rest = elim (Bool-cases (ltb (a.now s - start) limit)) [
    | inr late ↦
        let over : start + limit ≤ a.now s = ground arith in
        (err (timeout limit), s, wait_late fuel limit start h s late, inr (refl, over))
    | inl early ↦ elim (Bool-cases (seen_terminal (a.status h s).0)) [
      | inl seen ↦
          let (d, e, f) = seen_lem (a.status h s).0 seen in
          (
            ok tt,
            (a.status h s).1,
            wait_seen fuel limit start h s early seen,
            inl (refl, (s, d, e, refl, f)),
          )
      | inr unseen ↦
          let left : a.now s + 1 ≤ start + limit = ground arith in
          let (r, t, e, w) = rest left in
          (r, t, wait_again fuel limit start h s early unseen ∙ e, w)
    ]
  ]

  wait_finishes :
      (fuel limit start : ℕ) (h : DaemonHandle) (s : a.State)
      → start ≤ a.now s
      → start + limit ≤ a.now s + fuel * stop_pause
      → Finished h limit start (wait a (suc fuel) limit start h s)
  wait_finishes zero limit start h s past left =
      wait_round zero limit start h s past (λ early. absurd (omega arith))
  wait_finishes (suc fuel) limit start h s past left =
      let s' = (a.status h s).1 in
      let t = a.sleep stop_pause s' in
      wait_round (suc fuel) limit start h s past (λ _.
        wait_finishes fuel limit start h t
          (omega (arith, a.status_takes h s, a.sleep_takes stop_pause s'))
          (omega (arith, a.status_takes h s, a.sleep_takes stop_pause s')))

  pub two_more : (n : ℕ) → n + 2 ≡ suc (n + 1)
  two_more n = omega arith

  signalled_finishes :
      (h : DaemonHandle) (limit : ℕ) (sent : PlatformResult (Unit {0}) × a.State)
      → (r : PlatformResult (Unit {0})) × (t : a.State) × (signalled a h limit sent ≡ some (r, t))
        × (((e : PlatformError) × (sent ≡ (err e, t)) × (r ≡ err e))
            ⊎ Waited h limit (a.now sent.1) r t)
  unfolding signalled Finished
  signalled_finishes h limit (err e, t) = (err e, t, refl, inl (e, refl, refl))
  signalled_finishes h limit (ok done, s) =
      let (r, t, e, w) =
        wait_finishes (limit / stop_pause + 1) limit (a.now s) h s (omega arith) (omega arith) in
      (r, t, rw (two_more (limit / stop_pause)) e, inr w)

  -- The default `stop` returns, whatever the daemon does, in the queries that its limit allows: it
  -- answers with the error of the signal, or with success after a query whose answer was that the
  -- daemon has ended, or with a timeout when at least the limit has passed since the signal.
  pub stop_daemon_finishes :
      (h : DaemonHandle) (limit : ℕ) (s : a.State)
      → (r : PlatformResult (Unit {0})) × (t : a.State) × (stop_daemon a h limit s ≡ some (r, t))
        × (((e : PlatformError) × (a.signal h term s ≡ (err e, t)) × (r ≡ err e))
            ⊎ Waited h limit (a.now (a.signal h term s).1) r t)
  unfolding stop_daemon
  stop_daemon_finishes h limit s = signalled_finishes h limit (a.signal h term s)
