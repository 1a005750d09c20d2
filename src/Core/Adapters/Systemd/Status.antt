-- ===== src/Core/Adapters/Systemd/Status.antt =====
-- What the states that the adapter reports mean of the answer of `systemctl` (core's
-- adapters/systemd.rs).
use duende.Prelude.{
  ℕ, ◌≡◌, ◌≢◌, refl, sym, ap, ◌∙◌, ◌↔◌, inl, inr, true, none, some, List, ◌==◌, arith, Bool-cases,
  Option-cases,
}
use duende.Prelude.Text.{chars, contains}
use duende.Prelude.Text.Finding.{Occurs, IsFilled, contains-Occurs, Occurs-contains}
use duende.Core.Types.{running}
use duende.Core.Adapter.{ok, DaemonHandle, systemd_unit}
use duende.Core.Adapters.Tool.{Call, not_run, finished, Tool}
use duende.Core.Adapters.Systemd.{
  SystemdAdapter, of_words, parse_status, status_args, status_answer, status,
}

abbrev pub active : List ℕ
active = chars "Active: active (running)"

active-IsFilled : IsFilled active
active-IsFilled = (65, chars "ctive: active (running)", refl)

of_words_lem : (out : List ℕ) → of_words out ≢ running
unfolding of_words
of_words_lem out e = ground arith

parse_status-active :
    (out : List ℕ) (code : ℕ)
    → parse_status out code ≡ running
    → (code ≡ 0) × (contains active out ≡ true)
unfolding parse_status
parse_status-active out code e = elim (Bool-cases (code == 0)) [
  | inr z ↦ absurd (of_words_lem out (ground (arith, e, z)))
  | inl z ↦ elim (Bool-cases (contains active out)) [
    | inl p ↦ (ground arith, p)
    | inr p ↦ elim (Bool-cases (contains (chars "Active: activating") out)) [
      | inl q ↦ absurd (ground (arith, e, z, p, q))
      | inr q ↦ absurd (of_words_lem out (ground (arith, e, z, p, q)))
    ]
  ]
]

active-parse_status : (out : List ℕ) → contains active out ≡ true → parse_status out 0 ≡ running
unfolding parse_status
active-parse_status out e = rw (e, parse_status) refl

module _ (t : Tool) where
  -- `systemctl status` on the unit ended with the code 0, and wrote that the unit is active.
  abbrev pub Active : SystemdAdapter → DaemonHandle → t.State → Type 0
  Active a h s =
      (unit : List ℕ) × (systemd_unit h ≡ some unit)
      × (out : List ℕ) × (error : List ℕ) × ((t.run (status_args a unit) s).0
          ≡ finished (some 0) out error)
      × Occurs active out

  status_answer-running :
      (c : Call)
      → status_answer c ≡ ok running
      → (out : List ℕ) × (error : List ℕ) × (c ≡ finished (some 0) out error) × Occurs active out
  status_answer-running (not_run code) e = absurd (cc)
  status_answer-running (finished none out error) e =
      let said : parse_status out 1 ≡ running = ground (arith, e) in
      let (off, p) = parse_status-active out 1 said in absurd (omega (arith, off))
  status_answer-running (finished (some code) out error) e =
      let said : parse_status out code ≡ running = ground (arith, e) in
      let (zero_code, p) = parse_status-active out code said in
      (out, error, ap (λ n. finished (some n) out error) zero_code, contains-Occurs active out p)

  -- The status of a daemon is that it runs exactly if its handle names a unit, `systemctl status` on
  -- that unit ends with the code 0, and the text "Active: active (running)" stands in its output.
  pub status-running :
      (a : SystemdAdapter) (h : DaemonHandle) (s : t.State)
      → ((status t a h s).0 ≡ ok running) ↔ Active a h s
  unfolding status
  status-running a h s = (
    λ e. elim (Option-cases (systemd_unit h)) [
      | inl u ↦ absurd (ground (arith, e, u))
      | inr (unit, u) ↦
          let said : status_answer (t.run (status_args a unit) s).0 ≡ ok running =
            sym (rw (u, status) refl) ∙ e in
          let (out, error, c, o) = status_answer-running (t.run (status_args a unit) s).0 said in
          (unit, u, out, error, c, o)
    ],
    λ (unit, u, out, error, c, o).
        rw (u, status)
          (rw c (ap ok (active-parse_status out (Occurs-contains active out active-IsFilled o)))),
  )
