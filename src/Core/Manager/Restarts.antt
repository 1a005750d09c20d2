-- ===== src/Core/Manager/Restarts.antt =====
-- Restart counting against the restart policy (manager.rs).
use duende.Prelude.{
  ℕ, zero, suc, ◌+◌, ◌<◌, ◌≡◌, refl, ◌∙◌, ap, none, some, String, arith, u32_mod, wrap32, leb, Bool,
  false, ◌&&◌,
}
use duende.Prelude.Map.{lookup, insert}
use duende.Core.Types.{DaemonId, ExitReason}
use duende.Core.Error.{ok}
use duende.Core.Config.{DaemonConfig}
use duende.Core.Restart.{RestartPolicy, should_restart}
use duende.Core.Restart.Backoff.{budget}
use duende.Core.Manager.Access.{get-insert}
use duende.Core.Manager.Registration.{register_new}
use duende.Core.Manager.{
  ManagedDaemon, DaemonManager, register, get, increment_restart_count, get_restart_policy,
  get_restart_count, new_daemon, with_restart_policy,
}

module _ {F : Type 0} where
  -- `n` calls of `increment_restart_count`.
  pub restarts : ℕ → DaemonId → DaemonManager F → DaemonManager F
  restarts zero id m = m
  restarts (suc n) id m = (increment_restart_count id (restarts n id m)).1

  abbrev bumped : ManagedDaemon F → ManagedDaemon F
  bumped d = record d { restart_count = wrap32 (d.restart_count + 1) }

  increment_restart_count-ok :
      (id : DaemonId) (d : ManagedDaemon F) (m : DaemonManager F)
      → get id m ≡ ok d
      → (increment_restart_count id m).1 ≡ record m { daemons = insert id (bumped d) m.daemons }
  unfolding increment_restart_count
  increment_restart_count-ok id d m h = rw h refl

  restarts-get :
      (n : ℕ) (id : DaemonId) (d : ManagedDaemon F) (m : DaemonManager F)
      → get id m ≡ ok d
      → n + d.restart_count < u32_mod
      → get id (restarts n id m) ≡ ok (record d { restart_count = n + d.restart_count })
  unfolding restarts
  restarts-get zero id d m h b =
      h ∙ ap (λ (k : ℕ). ok (record d { restart_count = k })) (omega arith)
  restarts-get (suc n) id d m h b =
      let m' = restarts n id m in
      let d' = record d { restart_count = n + d.restart_count } in
      let ih = restarts-get n id d m h (omega arith) in
      ap (get id) (increment_restart_count-ok id d' m' ih)
      ∙ get-insert id (bumped d') m'
      ∙ ap (λ (k : ℕ). ok (record d { restart_count = k })) (omega arith)

  -- A policy that bounds the restarts allows no more after n of them.
  abbrev pub spent : RestartPolicy F → ℕ → Bool
  spent policy n = elim (budget policy) [ none ↦ false | some k ↦ leb k n ]

  within_budget :
      (policy : RestartPolicy F) (reason : ExitReason) (n : ℕ)
      → (should_restart policy reason n && spent policy n) ≡ false
  unfolding should_restart
  within_budget policy reason n = ground arith

  -- A daemon registered under a new identifier has, after fewer than 2^32 counted restarts, exactly
  -- that count and still the policy of its registration. Under a policy with a bound on the
  -- restarts (`MaxRetries`, `WithBackoff`), no restart is allowed then if the count has reached it.
  pub restarts-register :
      (id : DaemonId) (name : String) (c : DaemonConfig F) (policy : RestartPolicy F)
      (m : DaemonManager F) (n : ℕ)
      → lookup id m.daemons ≡ none
      → n < u32_mod
      → let m' = restarts n id (register id name c policy m).1 in
        (get_restart_count id m' ≡ ok n)
        × (get_restart_policy id m' ≡ ok policy)
        × ((reason : ExitReason) → (should_restart policy reason n && spent policy n) ≡ false)
  unfolding get_restart_count get_restart_policy
  restarts-register id name c policy m n h b =
      let d = with_restart_policy (new_daemon id name c) policy in
      let m₁ = record m { daemons = insert id d m.daemons } in
      let entry = restarts-get n id d m₁ (get-insert id d m) (omega arith) in
      rw (register_new id name c policy m h) (
        rw entry
          (ap (λ (k : ℕ). ok k) (omega arith), refl, λ reason. within_budget policy reason n))
