-- ===== src/Platform/Wos/Lifecycle.antt =====
-- The process table after any sequence of spawns and signals (wos.rs).
use duende.Prelude.{
  ℕ, suc, ◌<◌, ◌+◌, ◌≡◌, refl, ◌∙◌, ap, none, some, String, arith, u32_mod, List, [], ◌∷◌, ◌⊎◌, inl,
  inr, Option-cases,
}
use duende.Prelude.Float.{F64}
use duende.Prelude.Map.{lookup, insert, lookup-insert, lookup-remove}
use duende.Core.Types.{DaemonStatus, Signal}
use duende.Platform.Error.{PlatformError, Result, ok, err, ◌>>=◌}
use duende.Platform.Handle.{DaemonHandle}
use duende.Platform.Wos.Processes.{process_info_lem}
use duende.Platform.Wos.{
  ProcessInfo, WosAdapter, new, first_pid, process_info, spawn, signal, status, handle_pid,
  apply_signal, allocate_pid, deliver, signal_pid, state_to_status, status_of,
}

pub data Call : Type 0 where
  spawns : String → Call
  signals : DaemonHandle → Signal → Call

-- The counter of PIDs and the adapter.
unfoldable pub step : F64 → ℕ × WosAdapter → Call → ℕ × WosAdapter
step f (next, a) (spawns name) = ((spawn f name next a).1, (spawn f name next a).2)
step f (next, a) (signals h s) = (next, (signal h s a).1)

unfoldable pub run : F64 → ℕ × WosAdapter → List Call → ℕ × WosAdapter
run f st [] = st
run f st (c ∷ cs) = run f (step f st c) cs

-- The number of spawns.
abbrev pub spawns_of : List Call → ℕ
spawns_of [] = 0
spawns_of (spawns name ∷ cs) = suc (spawns_of cs)
spawns_of (signals h s ∷ cs) = spawns_of cs

-- Each process is alive (it has started and is not over), stands under its PID, and was given a number below the counter.
abbrev pub Fits : ℕ → ℕ → ProcessInfo → Type 0
Fits next j p = (state_to_status p.state ≡ DaemonStatus.running) × (p.pid ≡ j) × (j < next)

abbrev pub IsLiving : ℕ × WosAdapter → Type 0
IsLiving (next, a) = (j : ℕ) (p : ProcessInfo) → lookup j a.processes ≡ some p → Fits next j p

spawn-IsLiving :
    (f : F64) (name : String) (next : ℕ) (a : WosAdapter)
    → IsLiving (next, a)
    → IsLiving (next + 1, (spawn f name next a).2)
unfolding spawn state_to_status
spawn-IsLiving f name next a v j p e = ground (
  arith,
  process_info_lem f a name next,
  lookup-insert next j (process_info f a name next) a.processes,
  v j p,
)

step_spawns :
    (f : F64) (name : String) (next : ℕ) (a : WosAdapter)
    → next + 1 < u32_mod
    → step f (next, a) (spawns name) ≡ (next + 1, (spawn f name next a).2)
unfolding step spawn
step_spawns f name next a b = ap (λ (n : ℕ). (n, (spawn f name next a).2)) (omega arith)

deliver-IsLiving :
    (s : Signal) (pid next : ℕ) (a : WosAdapter) (q : ProcessInfo)
    → lookup pid a.processes ≡ some q
    → IsLiving (next, a)
    → IsLiving (next, deliver s pid a q)
unfolding apply_signal state_to_status
deliver-IsLiving s pid next a q h v j p e =
    let q' = record q { state = apply_signal q.state s } in
    ground (
      arith,
      v j p,
      v pid q,
      lookup-insert pid j q' a.processes,
      lookup-remove pid j (insert pid q' a.processes),
    )

signal_pid-IsLiving :
    (s : Signal) (next : ℕ) (a : WosAdapter) (r : Result ℕ)
    → IsLiving (next, a)
    → IsLiving (next, (signal_pid s a r).1)
signal_pid-IsLiving s next a (err e) v = v
signal_pid-IsLiving s next a (ok pid) v = elim (Option-cases (lookup pid a.processes)) [
  | inl e ↦ rw (e, signal_pid) v
  | inr (q, e) ↦ rw (e, signal_pid) (deliver-IsLiving s pid next a q e v)
]

run-IsLiving :
    (f : F64) (next : ℕ) (a : WosAdapter) (cs : List Call)
    → next + spawns_of cs < u32_mod
    → IsLiving (next, a)
    → IsLiving (run f (next, a) cs) × ((run f (next, a) cs).0 ≡ next + spawns_of cs)
unfolding run step
run-IsLiving f next a [] b v = (v, omega arith)
run-IsLiving f next a (spawns name ∷ cs) b v =
    let (w, e) =
      run-IsLiving f (next + 1) (spawn f name next a).2 cs (omega arith)
        (spawn-IsLiving f name next a v) in
    rw (step_spawns f name next a (omega arith), run) (w, e ∙ omega arith)
run-IsLiving f next a (signals h s ∷ cs) b v =
    run-IsLiving f next (signal h s a).1 cs b
      (unfold signal in signal_pid-IsLiving s next a (handle_pid PlatformError.signal h) v)

free_lem : (n : ℕ) (st : ℕ × WosAdapter) → st.0 ≡ n → IsLiving st → lookup n st.1.processes ≡ none
free_lem n (next, a) e v = elim (Option-cases (lookup n a.processes)) [
  | inl h ↦ h
  | inr (p, h) ↦ ground (arith, v n p h)
]

abbrev pub start : ℕ × WosAdapter
start = (first_pid, new)

start-IsLiving : IsLiving start
unfolding new lookup
start-IsLiving j p e = cc

Fits-at :
    (n : ℕ) (st : ℕ × WosAdapter) (j : ℕ) (p : ProcessInfo)
    → st.0 ≡ n
    → IsLiving st
    → lookup j st.1.processes ≡ some p
    → Fits n j p
Fits-at n (next, a) j p e v h = ground (arith, v j p h)

started :
    (f : F64) (cs : List Call)
    → first_pid + spawns_of cs < u32_mod
    → IsLiving (run f start cs) × ((run f start cs).0 ≡ first_pid + spawns_of cs)
started f cs b = run-IsLiving f first_pid new cs b start-IsLiving

-- After fewer than 2^32 - 2 spawns, and any signals, each process in the table is
-- alive and stands under its own PID, which is below the counter.
pub run-Fits :
    (f : F64) (cs : List Call) (j : ℕ) (p : ProcessInfo)
    → first_pid + spawns_of cs < u32_mod
    → lookup j (run f start cs).1.processes ≡ some p
    → Fits (first_pid + spawns_of cs) j p
run-Fits f cs j p b e =
    let (v, n) = started f cs b in Fits-at (first_pid + spawns_of cs) (run f start cs) j p n v e

-- After fewer than 2^32 - 2 spawns, and any signals, the PID that the next spawn
-- takes is two more than the number of spawns, and no process has it.
pub allocate_pid-run :
    (f : F64) (cs : List Call)
    → first_pid + spawns_of cs < u32_mod
    → ((allocate_pid (run f start cs).0).0 ≡ first_pid + spawns_of cs)
      × (lookup (allocate_pid (run f start cs).0).0 (run f start cs).1.processes ≡ none)
allocate_pid-run f cs b =
    let (v, n) = started f cs b in (n, free_lem (run f start cs).0 (run f start cs) refl v)

found_status :
    (next : ℕ) (a : WosAdapter) (s : DaemonStatus) (r : Result ℕ)
    → IsLiving (next, a)
    → (r >>= λ pid. ok (status_of (lookup pid a.processes))) ≡ ok s
    → (s ≡ DaemonStatus.running) ⊎ (s ≡ DaemonStatus.stopped)
found_status next a s (err x) v e = cc
found_status next a s (ok pid) v e = elim (Option-cases (lookup pid a.processes)) [
  | inl h ↦ ground (arith, h)
  | inr (p, h) ↦ ground (arith, h, v pid p h)
]

handle_status :
    (h : DaemonHandle) (next : ℕ) (a : WosAdapter) (s : DaemonStatus)
    → IsLiving (next, a)
    → status h a ≡ ok s
    → (s ≡ DaemonStatus.running) ⊎ (s ≡ DaemonStatus.stopped)
unfolding status
handle_status h next a s v e = found_status next a s (handle_pid PlatformError.status h) v e

-- After fewer than 2^32 - 2 spawns, and any signals, a status that is found is `Running` or
-- `Stopped`, for every handle: the adapter never reports `Failed`, though signals kill its
-- processes, and never `Paused`, though STOP blocks them.
pub status-run :
    (f : F64) (cs : List Call) (h : DaemonHandle) (s : DaemonStatus)
    → first_pid + spawns_of cs < u32_mod
    → status h (run f start cs).1 ≡ ok s
    → (s ≡ DaemonStatus.running) ⊎ (s ≡ DaemonStatus.stopped)
status-run f cs h s b e =
    handle_status h (run f start cs).0 (run f start cs).1 s (started f cs b).0 e
