-- ===== src/Core/Manager/Registry.antt =====
-- The calls that change the manager as data, their runs, and that a call is local to one daemon
-- (manager.rs).
use duende.Prelude.{ℕ, ◌≡◌, ◌≢◌, refl, List, [], ◌∷◌, String, arith, Option-cases, inl, inr}
use duende.Prelude.Map.{lookup, lookup-insert, lookup-remove}
use duende.Core.Types.{DaemonId, DaemonStatus, HealthStatus}
use duende.Core.Config.{DaemonConfig}
use duende.Core.Restart.{RestartPolicy}
use duende.Core.Manager.{
  ManagedDaemon, DaemonManager, register, unregister, get, update_status, set_context_handle,
  increment_restart_count, update_health, write_back, new_daemon, with_restart_policy,
}

-- The calls that change the manager, of all its methods with `&self`.
pub data Request (F : Type 0) : Type 0 where
  registers : DaemonId → String → DaemonConfig F → RestartPolicy F → Request F
  unregisters : DaemonId → Request F
  sets_status : DaemonId → DaemonStatus → Request F
  sets_handle : ℕ → DaemonId → ℕ → Request F
  counts_restart : DaemonId → Request F
  sets_health : DaemonId → HealthStatus → Request F

abbrev pub subject : {F : Type 0} → Request F → DaemonId
subject (registers id name c policy) = id
subject (unregisters id) = id
subject (sets_status id s) = id
subject (sets_handle now id k) = id
subject (counts_restart id) = id
subject (sets_health id h) = id

module _ {F : Type 0} where
  unfoldable pub step : DaemonManager F → Request F → DaemonManager F
  step m (registers id name c policy) = (register id name c policy m).1
  step m (unregisters id) = (unregister id m).1
  step m (sets_status id s) = (update_status id s m).1
  step m (sets_handle now id k) = (set_context_handle now id k m).1
  step m (counts_restart id) = (increment_restart_count id m).1
  step m (sets_health id h) = (update_health id h m).1

  unfoldable pub run : DaemonManager F → List (Request F) → DaemonManager F
  run m [] = m
  run m (q ∷ qs) = run (step m q) qs

  write_back_frame {ℓ} :
      {A : Type ℓ} (id : DaemonId) (change : ManagedDaemon F → ManagedDaemon F × A)
      (m : DaemonManager F) (j : DaemonId)
      → j ≢ id
      → lookup j (write_back id (get id m) change m).1.daemons ≡ lookup j m.daemons
  unfolding get
  write_back_frame id change m j n = elim (Option-cases (lookup id m.daemons)) [
    | inl e ↦ rw (e, get) refl
    | inr (d, e) ↦ rw (e, get) (ground (arith, lookup-insert id j (change d).0 m.daemons))
  ]

  -- A call on one daemon leaves the entries of all others, present or absent, as they were.
  pub step_frame :
      (m : DaemonManager F) (q : Request F) (j : DaemonId)
      → j ≢ subject q
      → lookup j (step m q).daemons ≡ lookup j m.daemons
  unfolding step register unregister update_status set_context_handle increment_restart_count
      update_health
  step_frame m (registers id name c policy) j n =
      ground
        (arith, lookup-insert id j (with_restart_policy (new_daemon id name c) policy) m.daemons)
  step_frame m (unregisters id) j n = ground (arith, lookup-remove id j m.daemons)
  step_frame m (sets_status id s) j n = write_back_frame id _ m j n
  step_frame m (sets_handle now id k) j n = write_back_frame id _ m j n
  step_frame m (counts_restart id) j n = write_back_frame id _ m j n
  step_frame m (sets_health id h) j n = write_back_frame id _ m j n
