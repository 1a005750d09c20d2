-- ===== src/Core/Manager/Access.antt =====
-- What `daemons.get(&id)` answers, and the entry after a write (manager.rs).
use duende.Prelude.{◌≡◌, ◌⊎◌, ◌∙◌, none, some, arith, Option-cases, inl, inr}
use duende.Prelude.Map.{lookup, insert, remove, lookup-insert, lookup-remove}
use duende.Core.Types.{DaemonId}
use duende.Core.Error.{ok, err, about, not_found}
use duende.Core.Manager.{ManagedDaemon, DaemonManager, get}

module _ {F : Type 0} where
  pub get-found :
      (id : DaemonId) (d : ManagedDaemon F) (m : DaemonManager F)
      → lookup id m.daemons ≡ some d
      → get id m ≡ ok d
  unfolding get
  get-found id d m h = ground arith

  pub get-missing :
      (id : DaemonId) (m : DaemonManager F)
      → lookup id m.daemons ≡ none
      → get id m ≡ err (not_found (about "{}" id))
  unfolding get
  get-missing id m h = ground arith

  pub get-insert :
      (id : DaemonId) (d : ManagedDaemon F) (m : DaemonManager F)
      → get id (record m { daemons = insert id d m.daemons }) ≡ ok d
  get-insert id d m =
      get-found id d (record m { daemons = insert id d m.daemons })
        (lookup-insert id id d m.daemons ∙ ground arith)

  pub get-remove :
      (id : DaemonId) (m : DaemonManager F)
      → get id (record m { daemons = remove id m.daemons }) ≡ err (not_found (about "{}" id))
  get-remove id m =
      get-missing id (record m { daemons = remove id m.daemons })
        (lookup-remove id id m.daemons ∙ ground arith)

  -- `get` answers a daemon or that the identifier is unknown.
  pub get-cases :
      (id : DaemonId) (m : DaemonManager F)
      → (get id m ≡ err (not_found (about "{}" id)))
        ⊎ ((d : ManagedDaemon F) × (get id m ≡ ok d) × (lookup id m.daemons ≡ some d))
  get-cases id m = elim (Option-cases (lookup id m.daemons)) [
    | inl e ↦ inl (get-missing id m e)
    | inr (d, e) ↦ inr (d, get-found id d m e, e)
  ]
