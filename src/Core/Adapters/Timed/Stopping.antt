-- ===== src/Core/Adapters/Timed/Stopping.antt =====
-- The default `stop` over systemd and over containers (core's adapter.rs, adapters/systemd.rs and
-- adapters/container.rs).
use duende.Prelude.{ℕ, ◌+◌, ◌/◌, ◌<◌, ◌≡◌, refl, ap, ◌∙◌, true, some, List, arith}
use duende.Prelude.Text.Finding.{Lacks}
use duende.Core.Types.{is_terminal, term}
use duende.Core.Adapter.{ok, DaemonHandle, stop_pause, seen_terminal, stop_daemon}
use duende.Core.Adapter.Stopping.{wait_seen, two_more}
use duende.Core.Adapters.Tool.{finished}
use duende.Core.Adapters.Systemd
use duende.Core.Adapters.Systemd.{SystemdAdapter}
use duende.Core.Adapters.Systemd.Status.{Active}
use duende.Core.Adapters.Container.{ContainerAdapter, status_args, extract_exit_code, handle_id}
use duende.Core.Adapters.Container.Operations
use duende.Core.Adapters.Container.Status.{parse_status_compact, exit_status_lem}
use duende.Core.Adapters.Timed.{TimedTool, containers}

module _ (w : TimedTool) where
  -- The last query of the unit did not find it active.
  abbrev pub Inactive : SystemdAdapter → DaemonHandle → w.tool.State → Type 0
  Inactive a h t =
      (s : w.tool.State) × ((Systemd.status w.tool a h s).1 ≡ t) × ¬ Active w.tool a h s

  status_compact :
      (a : ContainerAdapter) (h : DaemonHandle) (s : w.tool.State) (id out error : List ℕ)
      → handle_id h ≡ some id
      → (w.tool.run (status_args a id) s).0 ≡ finished (some 0) out error
      → Lacks 32 out
      → seen_terminal (Operations.status w.tool a h s).0 ≡ true
  unfolding Operations.status seen_terminal
  status_compact a h s id out error e c compact =
      rw (e, Operations.status)
        (rw c (
          ap is_terminal (parse_status_compact out compact)
          ∙ exit_status_lem (extract_exit_code out)))

  status_after :
      (a : ContainerAdapter) (h : DaemonHandle) (s : w.tool.State) (id : List ℕ)
      → handle_id h ≡ some id
      → (Operations.status w.tool a h s).1 ≡ (w.tool.run (status_args a id) s).1
  unfolding Operations.status
  status_after a h s id e = rw (e, Operations.status) refl

  -- The default `stop` over containers, with a limit above 0, where the signal is sent and the runtime's
  -- description of the container has no space, as `{{json .State}}` is printed: it reports success
  -- after the first query, whatever the description says, also that the container runs.
  pub stop_daemon_compact :
      (a : ContainerAdapter) (h : DaemonHandle) (limit : ℕ) (s t : w.tool.State)
      (id out error : List ℕ)
      → 0 < limit
      → Operations.send_signal w.tool a h term s ≡ (ok tt, t)
      → handle_id h ≡ some id
      → (w.tool.run (status_args a id) t).0 ≡ finished (some 0) out error
      → Lacks 32 out
      → stop_daemon (containers w a) h limit s ≡ some (ok tt, (w.tool.run (status_args a id) t).1)
  unfolding stop_daemon
  stop_daemon_compact a h limit s t id out error positive sent e c compact =
      let seen = status_compact a h t id out error e c compact in
      rw (sent, stop_daemon)
        (rw (two_more (containers w a) (limit / stop_pause)) (
          wait_seen (containers w a) (limit / stop_pause + 1) limit (w.now t) h t (ground arith)
            seen
          ∙ ap (λ u. some (ok tt, u)) (status_after a h t id e)))
