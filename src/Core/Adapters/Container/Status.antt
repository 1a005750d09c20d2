-- ===== src/Core/Adapters/Container/Status.antt =====
-- What the adapter makes of the runtime's description of a container (core's adapters/container.rs).
use duende.Prelude.{
  ℕ, ◌≡◌, ◌≢◌, refl, sym, ap, ◌∙◌, ◌⊎◌, inl, inr, ◌↔◌, true, Option, zero, suc, none, some, List,
  arith, Bool-cases, Option-cases,
}
use duende.Prelude.Text.{chars, contains}
use duende.Prelude.Text.Finding.{
  Occurs, IsFilled, contains-Occurs, Occurs-contains, Lacks, Lacks-contains,
}
use duende.Core.Types.{running, ℤ, pos, negsuc, is_terminal}
use duende.Core.Adapter.{ok, DaemonHandle}
use duende.Core.Adapters.Tool.{Call, not_run, finished, Tool}
use duende.Core.Adapters.Container.{
  ContainerAdapter, other_status, exit_status, extract_exit_code, parse_status, status_args,
  status_answer, handle_id,
}
use duende.Core.Adapters.Container.Operations.{status}

abbrev pub Runs : List ℕ → Type 0
Runs out = Occurs (chars "\"Running\": true") out ⊎ Occurs (chars "\"running\": true") out

pub exit_status_lem : (code : Option ℤ) → is_terminal (exit_status code) ≡ true
unfolding is_terminal
exit_status_lem none = refl
exit_status_lem (some (pos zero)) = refl
exit_status_lem (some (pos (suc n))) = refl
exit_status_lem (some (negsuc n)) = refl

exit_status-running : (code : Option ℤ) → exit_status code ≢ running
unfolding is_terminal
exit_status-running code e =
    let ended : is_terminal running ≡ true = ap is_terminal (sym e) ∙ exit_status_lem code in
    absurd (ground (arith, ended))

other_status-running : (out : List ℕ) → other_status out ≢ running
unfolding other_status
other_status-running out e = ground (arith, e, exit_status-running (extract_exit_code out))

upper-IsFilled : IsFilled (chars "\"Running\": true")
upper-IsFilled = (34, chars "Running\": true", refl)

lower-IsFilled : IsFilled (chars "\"running\": true")
lower-IsFilled = (34, chars "running\": true", refl)

Runs-parse_status : (out : List ℕ) → Runs out → parse_status out ≡ running
unfolding parse_status
Runs-parse_status out (inl o) =
    rw (Occurs-contains (chars "\"Running\": true") out upper-IsFilled o, parse_status) refl
Runs-parse_status out (inr o) =
    ground (arith, Occurs-contains (chars "\"running\": true") out lower-IsFilled o)

parse_status-Runs : (out : List ℕ) → parse_status out ≡ running → Runs out
unfolding parse_status
parse_status-Runs out e = elim (Bool-cases (contains (chars "\"Running\": true") out)) [
  | inl p ↦ inl (contains-Occurs (chars "\"Running\": true") out p)
  | inr p ↦ elim (Bool-cases (contains (chars "\"running\": true") out)) [
    | inl q ↦ inr (contains-Occurs (chars "\"running\": true") out q)
    | inr q ↦ absurd (other_status-running out (ground (arith, e, p, q)))
  ]
]

-- A description without a space, as `{{json .State}}` is printed, is of a container that has ended:
-- with its exit code if that is there and not 0, and otherwise as stopped, whatever it says.
pub parse_status_compact :
    (out : List ℕ) → Lacks 32 out → parse_status out ≡ exit_status (extract_exit_code out)
unfolding parse_status other_status
parse_status_compact out h = ground (
  arith,
  Lacks-contains 32 (chars "\"Running\":") (chars "true") out h,
  Lacks-contains 32 (chars "\"running\":") (chars "true") out h,
  Lacks-contains 32 (chars "\"Restarting\":") (chars "true") out h,
  Lacks-contains 32 (chars "\"restarting\":") (chars "true") out h,
  Lacks-contains 32 (chars "\"Paused\":") (chars "true") out h,
  Lacks-contains 32 (chars "\"paused\":") (chars "true") out h,
)

module _ (t : Tool) where
  -- The runtime's description of the handle's container says that it runs.
  abbrev pub Running : ContainerAdapter → DaemonHandle → t.State → Type 0
  Running a h s =
      (id : List ℕ) × (handle_id h ≡ some id)
      × (out : List ℕ) × (error : List ℕ) × ((t.run (status_args a id) s).0
          ≡ finished (some 0) out error)
      × Runs out

  status_answer-Runs :
      (a : ContainerAdapter) (c : Call)
      → status_answer a.runtime c ≡ ok running
      → (out : List ℕ) × (error : List ℕ) × (c ≡ finished (some 0) out error) × Runs out
  status_answer-Runs a (not_run code) e = absurd (cc)
  status_answer-Runs a (finished none out error) e = absurd (cc)
  status_answer-Runs a (finished (some zero) out error) e =
      (out, error, refl, parse_status-Runs out (ground (arith, e)))
  status_answer-Runs a (finished (some (suc n)) out error) e = absurd (cc)

  -- The status of a daemon is that it runs exactly if its handle names a container, the runtime's
  -- command for its description succeeds, and "Running": true or "running": true, with that space,
  -- stands in the output.
  pub status-Running :
      (a : ContainerAdapter) (h : DaemonHandle) (s : t.State)
      → ((status t a h s).0 ≡ ok running) ↔ Running a h s
  unfolding status
  status-Running a h s = (
    λ e. elim (Option-cases (handle_id h)) [
      | inl u ↦ absurd (ground (arith, e, u))
      | inr (id, u) ↦
          let said : status_answer a.runtime (t.run (status_args a id) s).0 ≡ ok running =
            sym (rw (u, status) refl) ∙ e in
          let (out, error, c, o) = status_answer-Runs a (t.run (status_args a id) s).0 said in
          (id, u, out, error, c, o)
    ],
    λ (id, u, out, error, c, o). rw (u, status) (rw c (ap ok (Runs-parse_status out o))),
  )
