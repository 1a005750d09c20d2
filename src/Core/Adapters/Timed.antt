-- ===== src/Core/Adapters/Timed.antt =====
-- The adapters of systemd and of the containers as platform adapters, on tools whose calls take time,
-- and the default `stop` over them (core's adapter.rs, adapters/systemd.rs and adapters/container.rs).
pub mod Stopping
use duende.Prelude.{ℕ, ◌+◌, ◌≤◌, ◌≡◌, none, some, List, inl, inr, arith, Option-cases}
use duende.Core.Adapter.{PlatformAdapter, DaemonHandle, systemd_unit}
use duende.Core.Adapters.Tool.{Tool}
use duende.Core.Adapters.Systemd
use duende.Core.Adapters.Systemd.{SystemdAdapter}
use duende.Core.Adapters.Container.{ContainerAdapter, handle_id}
use duende.Core.Adapters.Container.Operations

-- A clock that no call turns back.
pub record TimedTool : Type 1 where
  pub tool : Tool
  pub now : tool.State → ℕ
  pub sleep : ℕ → tool.State → tool.State
  pub run_takes : (args : List (List ℕ)) (s : tool.State) → now s ≤ now (tool.run args s).1
  pub sleep_takes : (n : ℕ) (s : tool.State) → now s + n ≤ now (sleep n s)

module _ (w : TimedTool) where
  pub systemd_takes :
      (a : SystemdAdapter) (h : DaemonHandle) (s : w.tool.State)
      → w.now s ≤ w.now (Systemd.status w.tool a h s).1
  unfolding Systemd.status
  systemd_takes a h s = elim (Option-cases (systemd_unit h)) [
    | inl e ↦ rw (e, Systemd.status) (omega arith)
    | inr (unit, e) ↦ rw (e, Systemd.status) (w.run_takes _ s)
  ]

  pub container_takes :
      (a : ContainerAdapter) (h : DaemonHandle) (s : w.tool.State)
      → w.now s ≤ w.now (Operations.status w.tool a h s).1
  unfolding Operations.status
  container_takes a h s = elim (Option-cases (handle_id h)) [
    | inl e ↦ rw (e, Operations.status) (omega arith)
    | inr (id, e) ↦ rw (e, Operations.status) (w.run_takes _ s)
  ]

  abbrev pub systemd : SystemdAdapter → PlatformAdapter
  systemd a = record {
    State = w.tool.State;
    signal = Systemd.send_signal w.tool a;
    status = Systemd.status w.tool a;
    now = w.now;
    sleep = w.sleep;
    status_takes = systemd_takes a;
    sleep_takes = w.sleep_takes;
  }

  abbrev pub containers : ContainerAdapter → PlatformAdapter
  containers a = record {
    State = w.tool.State;
    signal = Operations.send_signal w.tool a;
    status = Operations.status w.tool a;
    now = w.now;
    sleep = w.sleep;
    status_takes = container_takes a;
    sleep_takes = w.sleep_takes;
  }
