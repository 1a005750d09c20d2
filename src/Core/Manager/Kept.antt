-- ===== src/Core/Manager/Kept.antt =====
-- A registered daemon stays registered as it is until it is unregistered while it is not active
-- (manager.rs).
use duende.Prelude.{◌≡◌, ◌≢◌, ◌⊎◌, none, some, List, ◌∷◌, ◌++◌}
use duende.Prelude.Map.{lookup}
use duende.Core.Types.{DaemonId, running, paused}
use duende.Core.Manager.{ManagedDaemon, DaemonManager}
use duende.Core.Manager.Registry.{Request, unregisters, step, run}

module _ {F : Type 0} where
  -- What a registration has set: the identifier, the name, the configuration and the policy.
  abbrev pub Same : ManagedDaemon F → ManagedDaemon F → Type 0
  Same d c =
      (c.id ≡ d.id)
      × (c.name ≡ d.name)
      × (c.config ≡ d.config)
      × (c.restart_policy ≡ d.restart_policy)

  abbrev pub Entered : DaemonId → ManagedDaemon F → DaemonManager F → Type 0
  Entered id d m = (c : ManagedDaemon F) × (lookup id m.daemons ≡ some c) × Same d c

  -- The entry is there and was not active; the call is to unregister it, and it is gone.
  abbrev pub Ended :
      DaemonId → ManagedDaemon F → DaemonManager F → Request F → DaemonManager F → Type 0
  Ended id d m q m' =
      (q ≡ unregisters id)
      × ((c : ManagedDaemon F) × (lookup id m.daemons ≡ some c)
          × Same d c
          × (c.status ≢ running)
          × (c.status ≢ paused))
      × (lookup id m'.daemons ≡ none)

  -- There to the end, or ended by one of the calls.
  abbrev pub Kept : DaemonId → ManagedDaemon F → DaemonManager F → List (Request F) → Type 0
  Kept id d m qs =
      Entered id d (run m qs)
      ⊎ ((before : List (Request F)) × (q : Request F) × (after : List (Request F)) × (qs
            ≡ before ++ (q ∷ after))
          × Ended id d (run m before) q (step (run m before) q))
