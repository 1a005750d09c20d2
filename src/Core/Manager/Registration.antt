-- ===== src/Core/Manager/Registration.antt =====
-- Registering and unregistering: when they succeed, and that they undo one another (manager.rs).
use duende.Prelude.{
  ◌+◌, ◌≡◌, refl, true, false, none, some, List, [], ◌∷◌, String, arith, ◌⊎◌, inl, inr,
  Option-cases, Bool-cases,
}
use duende.Prelude.Map.{lookup, insert, remove, length-insert_new}
use duende.Core.Types.{DaemonId, created, is_active}
use duende.Core.Error.{Result, ok, err, config, about, not_found, state}
use duende.Core.Config.{DaemonConfig}
use duende.Core.Restart.{RestartPolicy}
use duende.Core.Manager.Access.{get-found, get-missing, get-insert, get-remove}
use duende.Core.Manager.{
  ManagedDaemon, DaemonManager, register, unregister, status, count, get_restart_policy,
  get_restart_count, new_daemon, with_restart_policy,
}

module _ {F : Type 0} where
  pub register_new :
      (id : DaemonId) (name : String) (c : DaemonConfig F) (policy : RestartPolicy F)
      (m : DaemonManager F)
      → lookup id m.daemons ≡ none
      → register id name c policy m ≡ (
        ok id,
        record m {
          daemons = insert id (with_restart_policy (new_daemon id name c) policy) m.daemons;
        },
      )
  unfolding register
  register_new id name c policy m h = ground arith

  -- What a registration comes to.
  abbrev pub Registers :
      DaemonId → RestartPolicy F → DaemonManager F → Result DaemonId × DaemonManager F → Type 0
  Registers id policy m r =
      ((lookup id m.daemons ≡ none)
        × ((r.0 ≡ ok id)
            × (status id r.1 ≡ ok created)
            × (get_restart_count id r.1 ≡ ok 0)
            × (get_restart_policy id r.1 ≡ ok policy)
            × (count r.1 ≡ count m + 1)))
      ⊎ ((d : ManagedDaemon F) × (lookup id m.daemons ≡ some d)
          × (r ≡ (err (config (about "daemon {} already registered" id)), m)))

  -- A registration succeeds exactly when the identifier is new. It then shows the daemon as created,
  -- never restarted and with the policy given, and adds one to the count; otherwise it is refused
  -- and changes nothing.
  pub register_lem :
      (id : DaemonId) (name : String) (c : DaemonConfig F) (policy : RestartPolicy F)
      (m : DaemonManager F)
      → Registers id policy m (register id name c policy m)
  unfolding status get_restart_count get_restart_policy count
  register_lem id name c policy m =
      let d = with_restart_policy (new_daemon id name c) policy in
      elim (Option-cases (lookup id m.daemons)) [
        | inl e ↦ inl (
          e,
          rw (register_new id name c policy m e)
              (rw (get-insert id d m) (refl, refl, refl, refl, length-insert_new id d m.daemons e)),
        )
        | inr (o, e) ↦ inr (o, e, unfold register in ground arith)
      ]

  remove-absent :
      (k : DaemonId) (ds : List (DaemonId × ManagedDaemon F))
      → lookup k ds ≡ none
      → remove k ds ≡ ds
  unfolding lookup remove
  remove-absent k [] h = refl
  remove-absent k ((i, c) ∷ ds) h = ground (arith, remove-absent k ds)

  remove-insert :
      (k : DaemonId) (d : ManagedDaemon F) (ds : List (DaemonId × ManagedDaemon F))
      → lookup k ds ≡ none
      → remove k (insert k d ds) ≡ ds
  unfolding insert lookup remove
  remove-insert k d [] h = ground arith
  remove-insert k d ((i, c) ∷ ds) h = ground (arith, remove-insert k d ds)

  -- To unregister a daemon just registered under a new identifier succeeds, and gives back the
  -- manager from before.
  pub unregister-register :
      (id : DaemonId) (name : String) (c : DaemonConfig F) (policy : RestartPolicy F)
      (m : DaemonManager F)
      → lookup id m.daemons ≡ none
      → unregister id (register id name c policy m).1 ≡ (ok tt, m)
  unfolding unregister is_active
  unregister-register id name c policy m h =
      let d = with_restart_policy (new_daemon id name c) policy in
      rw (register_new id name c policy m h)
        (rw (get-insert id d m) (simp (remove-insert id d m.daemons h)))

  -- What an end of a registration comes to.
  abbrev pub Unregisters : DaemonId → DaemonManager F → Result (Unit {0}) × DaemonManager F → Type 0
  Unregisters id m r =
      ((lookup id m.daemons ≡ none) × (r ≡ (err (not_found (about "{}" id)), m)))
      ⊎ ((d : ManagedDaemon F) × (lookup id m.daemons ≡ some d)
          × (((is_active d.status ≡ true)
                × (r ≡ (err (state (about "cannot unregister active daemon {}" id)), m)))
              ⊎ ((is_active d.status ≡ false)
                  × ((r.0 ≡ ok tt) × (status id r.1 ≡ err (not_found (about "{}" id)))))))

  -- Unregistering an unknown identifier or an active daemon is refused with the manager unchanged;
  -- any other daemon is removed, and its identifier is unknown afterwards.
  pub unregister_lem : (id : DaemonId) (m : DaemonManager F) → Unregisters id m (unregister id m)
  unfolding unregister status
  unregister_lem id m = elim (Option-cases (lookup id m.daemons)) [
    | inl e ↦ inl (e, rw (get-missing id m e) refl)
    | inr (d, e) ↦
        let here = get-found id d m e in
        elim (Bool-cases (is_active d.status)) [
          | inl a ↦ inr (d, e, inl (a, rw here (rw a refl)))
          | inr i ↦ inr (d, e, inr (i, rw here (rw i (refl, rw (get-remove id m) refl))))
        ]
  ]
