-- ===== src/Core/Adapters/Wos/Signals.antt =====
-- What the operations make of the table of processes (core's adapters/wos.rs).
use duende.Prelude.{
  String, zero, suc, ℕ, ◌<◌, ◌≤◌, ◌≡◌, refl, ap, ◌∙◌, ◌⊎◌, inl, inr, true, false, Option, none,
  some, List, ltb, ◌==◌, if◌then◌else◌, arith, Bool-cases, Option-cases,
}
use mathlib.Core.Option
use duende.Prelude.Map.{lookup, lookup-insert}
use duende.Core.Types.{DaemonStatus, Signal, stop, cont}
use duende.Core.Adapter.{
  PlatformError, Message, config, text, with_text, with_code, spawn_failed, PlatformResult, err, ok,
  DaemonHandle, pid,
}
use duende.Core.Adapters.Tool.{Call, not_run, finished, Tool, success, succeeded}
use duende.Core.Adapters.Wos.{
  ProcessInfo, after, modify, priority_name, priority_from_name, local_status,
}
use duende.Core.Adapters.Wos.Operations.{
  if_available, answer_of, renice_args, WosAdapter, send_signal, set_priority, status, commit,
  wos_ctl_available,
}

-- The name of each level is read back as the level.
pub priority_from_name-priority_name :
    (level : ℕ) → level < 8 → priority_from_name (priority_name level) ≡ some level
unfolding priority_from_name priority_name
priority_from_name-priority_name zero h = refl
priority_from_name-priority_name (suc zero) h = refl
priority_from_name-priority_name (suc (suc zero)) h = refl
priority_from_name-priority_name (suc (suc (suc zero))) h = refl
priority_from_name-priority_name (suc (suc (suc (suc zero)))) h = refl
priority_from_name-priority_name (suc (suc (suc (suc (suc zero))))) h = refl
priority_from_name-priority_name (suc (suc (suc (suc (suc (suc zero)))))) h = refl
priority_from_name-priority_name (suc (suc (suc (suc (suc (suc (suc zero))))))) h = refl
priority_from_name-priority_name (suc (suc (suc (suc (suc (suc (suc (suc n)))))))) h =
    absurd (omega arith)

module _ (f : ProcessInfo → ProcessInfo) where
  lookup-same :
      (key at : ℕ) (m : List (ℕ × ProcessInfo)) (o : Option ProcessInfo)
      → lookup key m ≡ o
      → (key == at) ≡ true
      → lookup at m ≡ o
  lookup-same key at m o e t = let same : at ≡ key = ground arith in ap (λ n. lookup n m) same ∙ e

  lookup-modify :
      (key at : ℕ) (m : List (ℕ × ProcessInfo))
      → lookup at (modify key f m) ≡ (if key == at then Option.map f (lookup at m) else lookup at m)
  unfolding modify
  lookup-modify key at m = elim (Option-cases (lookup key m)) [
    | inl e ↦
        rw (e, modify)
          (elim (Bool-cases (key == at)) [
            | inl t ↦ rw (t, lookup-same key at m none e t) refl
            | inr g ↦ rw g refl
          ])
    | inr (info, e) ↦
        rw (e, modify)
          (lookup-insert key at (f info) m ∙ elim (Bool-cases (key == at)) [
            | inl t ↦ rw (t, lookup-same key at m (some info) e t) refl
            | inr g ↦ rw g refl
          ])
  ]

abbrev pub with_state : Signal → ProcessInfo → ProcessInfo
unfolding after
with_state sig info = record info { state = after sig info.state }

abbrev pub with_level : ℕ → ProcessInfo → ProcessInfo
with_level priority info = record info { priority = priority }

module _ (t : Tool) where
  -- The tool cannot be run, or this call of it succeeds; or neither.
  abbrev pub Permits : List (List ℕ) → t.State → Type 0
  Permits args s =
      ((wos_ctl_available t s).0 ≡ false)
      ⊎ (succeeded (t.run args (wos_ctl_available t s).1).0 ≡ true)

  abbrev pub Refuses : List (List ℕ) → t.State → Type 0
  Refuses args s =
      ((wos_ctl_available t s).0 ≡ true)
      × (succeeded (t.run args (wos_ctl_available t s).1).0 ≡ false)

  Judged : List (List ℕ) → t.State → PlatformResult (Unit {0}) → Type 0
  Judged args s r =
      ((r ≡ ok tt) × Permits args s) ⊎ ((e : PlatformError) × (r ≡ err e) × Refuses args s)

  answer_of_lem :
      (failure : Message → PlatformError) (title : String) (c : Call)
      → ((answer_of t failure title c ≡ ok tt) × (succeeded c ≡ true))
        ⊎ ((e : PlatformError) × (answer_of t failure title c ≡ err e) × (succeeded c ≡ false))
  answer_of_lem failure title (not_run code) =
      inr (failure (with_code "Failed to execute wos-ctl: " code), refl, refl)
  answer_of_lem failure title (finished code out error) = elim (Bool-cases (success code)) [
    | inl good ↦ inl (rw good refl, good)
    | inr bad ↦ inr (failure (with_text title error), rw bad refl, bad)
  ]

  if_available-Judged :
      (failure : Message → PlatformError) (title : String) (args : List (List ℕ)) (s : t.State)
      → Judged args s (if_available t failure title args s).0
  unfolding Judged
  if_available-Judged failure title args s = elim (Bool-cases (wos_ctl_available t s).0) [
    | inl there ↦
        rw there (elim (answer_of_lem failure title (t.run args (wos_ctl_available t s).1).0) [
          | inl (p, q) ↦ inl (p, inr q)
          | inr (e, p, q) ↦ inr (e, p, (refl, q))
        ])
    | inr absent ↦ rw absent (inl (refl, inl refl))
  ]

  -- Success where the tool permits it, with the one process changed in the table; or an error where it
  -- refuses, with the table as it was.
  abbrev pub Modified :
      (ProcessInfo → ProcessInfo)
      → ℕ
      → ℕ
      → List (List ℕ)
      → WosAdapter t
      → PlatformResult (Unit {0}) × WosAdapter t
      → Type 0
  Modified f p at args a o =
      ((o.0 ≡ ok tt)
        × Permits args a.tool
        × (lookup at o.1.processes
            ≡ (if p == at then Option.map f (lookup at a.processes) else lookup at a.processes)))
      ⊎ ((e : PlatformError) × (o.0 ≡ err e) × Refuses args a.tool × (o.1.processes ≡ a.processes))

  commit-Modified :
      (f : ProcessInfo → ProcessInfo) (p at : ℕ) (args : List (List ℕ)) (a : WosAdapter t)
      (o : PlatformResult (Unit {0}) × t.State)
      → Judged args a.tool o.0
      → Modified f p at args a (commit t a tt (modify p f a.processes) o)
  unfolding Judged
  commit-Modified f p at args a (err e, s) (inl (k, c)) = absurd (cc)
  commit-Modified f p at args a (err e, s) (inr (e', k, c)) = inr (e, refl, c, refl)
  commit-Modified f p at args a (ok u, s) (inl (k, c)) =
      inl (refl, c, lookup-modify f p at a.processes)
  commit-Modified f p at args a (ok u, s) (inr (e, k, c)) = absurd (cc)

  -- A priority above 7 is an error that changes nothing. Another is set for that process, and nothing
  -- else in the table, if the tool cannot be run or its call succeeds; otherwise the setting fails and
  -- leaves the table as it was.
  pub set_priority-Modified :
      (p priority at : ℕ) (a : WosAdapter t)
      → ((7 < priority) × ((e : PlatformError) × (set_priority t p priority a ≡ (err e, a))))
        ⊎ ((priority ≤ 7)
            × Modified
                (with_level priority)
                p
                at
                (renice_args p priority)
                a
                (set_priority t p priority a))
  unfolding set_priority
  set_priority-Modified p priority at a = elim (Bool-cases (ltb 7 priority)) [
    | inl high ↦
        let above : 7 < priority = ground arith in
        inl (above, (config (text "Priority must be 0-7"), rw (high, set_priority) refl))
    | inr low ↦
        let level : priority ≤ 7 = ground arith in
        inr (
          level,
          rw (low, set_priority)
              (commit-Modified (with_level priority) p at (renice_args p priority) a _ (
                if_available-Judged spawn_failed "wos-ctl renice failed: " (renice_args p priority)
                  a.tool)),
        )
  ]

  -- `wos-ctl` cannot be run.
  abbrev pub Absent : Type 0
  Absent = (s : t.State) → (wos_ctl_available t s).0 ≡ false

  status_absent :
      (h : DaemonHandle) (a : WosAdapter t) (p : ℕ)
      → Absent
      → pid h ≡ some p
      → (status t h a).0 ≡ ok (local_status (lookup p a.processes))
  unfolding status
  status_absent h a p absent e = rw (e, status) (rw (absent a.tool) refl)

  send_absent :
      (h : DaemonHandle) (sig : Signal) (a : WosAdapter t) (p : ℕ) (info : ProcessInfo)
      → Absent
      → pid h ≡ some p
      → lookup p a.processes ≡ some info
      → lookup p (send_signal t h sig a).1.processes ≡ some (with_state sig info)
  unfolding send_signal with_state
  send_absent h sig a p info absent e found =
      rw (e, send_signal)
        (rw (absent a.tool)
          (lookup-modify (with_state sig) p p a.processes ∙ rw found (ground arith)))

  -- Without the tool, a process of the table that is stopped and continued is reported as running,
  -- whatever its state was: also one that had exited or had been killed.
  pub status-cont-stop :
      (h : DaemonHandle) (a : WosAdapter t) (p : ℕ) (info : ProcessInfo)
      → Absent
      → pid h ≡ some p
      → lookup p a.processes ≡ some info
      → (status t h (send_signal t h cont (send_signal t h stop a).1).1).0 ≡ ok DaemonStatus.running
  unfolding local_status with_state after
  status-cont-stop h a p info absent e found =
      let b = (send_signal t h stop a).1 in
      let c = (send_signal t h cont b).1 in
      let once = send_absent h stop a p info absent e found in
      let twice = send_absent h cont b p (with_state stop info) absent e once in
      status_absent h c p absent e ∙ rw twice refl
