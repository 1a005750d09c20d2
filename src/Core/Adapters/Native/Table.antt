-- ===== src/Core/Adapters/Native/Table.antt =====
-- Which children the native adapter knows after a signal, a query and a stop (native.rs).
use duende.Prelude.{
  ℕ, zero, suc, ◌+◌, ◌-◌, ◌*◌, ◌/◌, ◌≤◌, ◌≡◌, refl, sym, ap, ◌∙◌, ◌⊎◌, inl, inr, true, false,
  Option, none, some, List, ltb, arith, Bool-cases, Option-cases,
}
use duende.Prelude.Map.{lookup, remove, lookup-remove}
use duende.Core.Types.{stopped, kill, term, pos, negsuc}
use duende.Core.Adapter.{PlatformError, PlatformResult, ok, err, DaemonHandle, pid}
use duende.Core.Adapters.Native.{
  Children, NativeAdapter, Poll, ended, alive, unknown, exited, signalled, sent, send_signal,
  polled, status, judged, wait, slept, terminated, stop, stop_wait,
}

remove-gone : (id : ℕ) (m : List (ℕ × ℕ)) → lookup id (remove id m) ≡ none
remove-gone id m = lookup-remove id id m ∙ ground arith

module _ (k : Children) where
  -- Success leaves the daemon out of the table.
  abbrev pub Settled : DaemonHandle → PlatformResult (Unit {0}) → NativeAdapter k → Type 0
  Settled h r b =
      ((r ≡ ok tt) × (lookup h.id b.processes ≡ none)) ⊎ ((e : PlatformError) × (r ≡ err e))

  sent_kill-Settled :
      (h : DaemonHandle) (child : ℕ) (ps : List (ℕ × ℕ)) (o : Option ℕ × k.State)
      → Settled h (sent k h.id kill child ps o).0 (sent k h.id kill child ps o).1
  unfolding sent
  sent_kill-Settled h child ps (none, s) = inl (refl, remove-gone h.id ps)
  sent_kill-Settled h child ps (some code, s) = inr (_, refl)

  send_kill-Settled :
      (h : DaemonHandle) (a : NativeAdapter k)
      → Settled h (send_signal k h kill a).0 (send_signal k h kill a).1
  unfolding send_signal
  send_kill-Settled h a = elim (Option-cases (lookup h.id a.processes)) [
    | inl e ↦ rw (e, send_signal) (inr (_, refl))
    | inr (child, e) ↦ elim (Option-cases (pid h)) [
      | inl f ↦ rw (e, send_signal) (rw f (inr (_, refl)))
      | inr (p, f) ↦
          rw (e, send_signal)
            (rw f (sent_kill-Settled h child a.processes (k.send p kill a.system)))
    ]
  ]

  Finished : DaemonHandle → Option (PlatformResult (Unit {0}) × NativeAdapter k) → Type 0
  Finished h o =
      (r : PlatformResult (Unit {0})) × (b : NativeAdapter k) × (o ≡ some (r, b)) × Settled h r b

  judged-polled :
      (h : DaemonHandle) (ps : List (ℕ × ℕ)) (o : Poll × k.State)
      (rest : Option (PlatformResult (Unit {0}) × NativeAdapter k))
      → Finished h (judged k (polled k h.id ps o) rest)
        ⊎ (judged k (polled k h.id ps o) rest ≡ rest)
  unfolding polled Finished
  judged-polled h ps (alive, s) rest = inr refl
  judged-polled h ps (unknown code, s) rest = inl (_, _, refl, inr (_, refl))
  judged-polled h ps (ended (exited (pos zero)), s) rest =
      inl (_, _, refl, inl (refl, remove-gone h.id ps))
  judged-polled h ps (ended (exited (pos (suc n))), s) rest =
      inl (_, _, refl, inl (refl, remove-gone h.id ps))
  judged-polled h ps (ended (exited (negsuc n)), s) rest =
      inl (_, _, refl, inl (refl, remove-gone h.id ps))
  judged-polled h ps (ended (signalled sig), s) rest =
      inl (_, _, refl, inl (refl, remove-gone h.id ps))

  -- A query answers, with the daemon out of the table if it has ended, or the loop goes on.
  judged-status :
      (h : DaemonHandle) (a : NativeAdapter k)
      (rest : Option (PlatformResult (Unit {0}) × NativeAdapter k))
      → Finished h (judged k (status k h a) rest) ⊎ (judged k (status k h a) rest ≡ rest)
  unfolding status Finished
  judged-status h a rest = elim (Option-cases (lookup h.id a.processes)) [
    | inl e ↦ rw (e, status) (inl (_, _, refl, inl (refl, e)))
    | inr (child, e) ↦ rw (e, status) (judged-polled h a.processes (k.try_wait child a.system) rest)
  ]

  polled_takes :
      (id : ℕ) (ps : List (ℕ × ℕ)) (o : Poll × k.State)
      → k.now (polled k id ps o).1.system ≡ k.now o.1
  unfolding polled
  polled_takes id ps (alive, s) = refl
  polled_takes id ps (unknown code, s) = refl
  polled_takes id ps (ended e, s) = refl

  status_takes :
      (h : DaemonHandle) (a : NativeAdapter k) → k.now a.system ≤ k.now (status k h a).1.system
  unfolding status
  status_takes h a = elim (Option-cases (lookup h.id a.processes)) [
    | inl e ↦ rw (e, status) (omega arith)
    | inr (child, e) ↦
        rw (e, status)
          (rw (polled_takes h.id a.processes (k.try_wait child a.system))
            (k.try_wait_takes child a.system))
  ]

  wait_late :
      (fuel limit start : ℕ) (h : DaemonHandle) (a : NativeAdapter k)
      → ltb (k.now a.system - start) limit ≡ false
      → wait k (suc fuel) limit start h a ≡ some (send_signal k h kill a)
  unfolding wait
  wait_late fuel limit start h a e = rw (e, wait) refl

  wait_early :
      (fuel limit start : ℕ) (h : DaemonHandle) (a : NativeAdapter k)
      → ltb (k.now a.system - start) limit ≡ true
      → wait k (suc fuel) limit start h a
        ≡ judged k (status k h a) (wait k fuel limit start h (slept k (status k h a).1))
  unfolding wait
  wait_early fuel limit start h a e = rw (e, wait) refl

  wait_round :
      (fuel limit start : ℕ) (h : DaemonHandle) (a : NativeAdapter k)
      → start ≤ k.now a.system
      → (k.now a.system + 1 ≤ start + limit
          → Finished h (wait k fuel limit start h (slept k (status k h a).1)))
      → Finished h (wait k (suc fuel) limit start h a)
  unfolding Finished
  wait_round fuel limit start h a past rest =
      elim (Bool-cases (ltb (k.now a.system - start) limit)) [
        | inr late ↦ rw (wait_late fuel limit start h a late) (_, _, refl, send_kill-Settled h a)
        | inl early ↦
            let left : k.now a.system + 1 ≤ start + limit = ground arith in
            let later = wait k fuel limit start h (slept k (status k h a).1) in
            rw (wait_early fuel limit start h a early)
              (elim (judged-status h a later) [ inl done ↦ done | inr on ↦ rw on (rest left) ])
      ]

  wait_finishes :
      (fuel limit start : ℕ) (h : DaemonHandle) (a : NativeAdapter k)
      → start ≤ k.now a.system
      → start + limit ≤ k.now a.system + fuel * stop_wait
      → Finished h (wait k (suc fuel) limit start h a)
  wait_finishes zero limit start h a past left =
      wait_round zero limit start h a past (λ early. absurd (omega arith))
  wait_finishes (suc fuel) limit start h a past left =
      let b = (status k h a).1 in
      wait_round (suc fuel) limit start h a past (λ _.
        wait_finishes fuel limit start h (slept k b)
          (omega (arith, status_takes h a, k.sleep_takes stop_wait b.system))
          (omega (arith, status_takes h a, k.sleep_takes stop_wait b.system)))

  two_more : (n : ℕ) → n + 2 ≡ suc (n + 1)
  two_more n = omega arith

  terminated_finishes :
      (h : DaemonHandle) (limit : ℕ) (o : PlatformResult (Unit {0}) × NativeAdapter k)
      → Finished h (terminated k h limit o)
  unfolding terminated Finished
  terminated_finishes h limit (err e, a) = (err e, a, refl, inr (e, refl))
  terminated_finishes h limit (ok done, a) =
      rw (two_more (limit / stop_wait)) (
        wait_finishes (limit / stop_wait + 1) limit (k.now a.system) h a (omega arith)
          (omega arith))

  -- `stop` returns, in the queries that its limit allows and whatever the child does; when it answers
  -- with success the adapter no longer knows the daemon, and otherwise it answers with an error.
  pub stop_finishes :
      (h : DaemonHandle) (limit : ℕ) (a : NativeAdapter k)
      → (r : PlatformResult (Unit {0})) × (b : NativeAdapter k) × (stop k h limit a ≡ some (r, b))
        × (((r ≡ ok tt) × (lookup h.id b.processes ≡ none)) ⊎ ((e : PlatformError) × (r ≡ err e)))
  unfolding stop Finished
  stop_finishes h limit a = terminated_finishes h limit (send_signal k h term a)

  -- After a kill that succeeded the daemon's status is that of a stopped one, and asking for it
  -- changes nothing.
  pub status-kill :
      (h : DaemonHandle) (a b : NativeAdapter k)
      → send_signal k h kill a ≡ (ok tt, b)
      → status k h b ≡ (ok stopped, b)
  unfolding status
  status-kill h a b e =
      let same : (send_signal k h kill a).1 ≡ b = ap (λ o. o.1) e in
      let answer : (send_signal k h kill a).0 ≡ ok tt = ap (λ o. o.0) e in
      elim (send_kill-Settled h a) [
        | inl (done, gone) ↦
            let gone' : lookup h.id b.processes ≡ none =
              sym (ap (λ (c : NativeAdapter k). lookup h.id c.processes) same) ∙ gone in
            rw (gone', status) refl
        | inr (failure, f) ↦ absurd (cc (answer, f))
      ]
