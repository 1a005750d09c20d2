-- ===== src/Core/Manager.antt =====
-- crates/duende-core/src/manager.rs, the second part: the registry of daemons. A method takes the
-- manager and returns its result with the manager after it; a call that returns an error leaves
-- what it had changed. The lock that a method holds makes it one step. A context handle is the key
-- of its channel in a store, which the daemon's context shares.
pub mod Access
pub mod Registry
pub mod Kept
pub mod Registration
pub mod Restarts
pub mod Signals
pub mod Delivery
pub mod Shutdown
use duende.Prelude.{
  ℕ, ◌+◌, ◌≡◌, Bool, true, false, not, Option, none, some, List, [], ◌∷◌, String, ◌==◌,
  if◌then◌else◌, wrap32, length,
}
use duende.Prelude.Map
use duende.Core.Types.{
  DaemonId, DaemonStatus, created, Signal, term, HealthStatus, is_active, can_signal,
}
use duende.Core.Error.{
  DaemonError, Result, ok, err, ◌>>=◌, ◌>>◌, fail_if, about, about_status, config, not_found, state,
}
use duende.Core.Config.{DaemonConfig}
use duende.Core.Context.{Mpsc, send_signal}
use duende.Core.Restart.{RestartPolicy, on_failure}

pub record ManagedDaemon (F : Type 0) : Type 0 where
  pub id : DaemonId
  pub name : String
  pub status : DaemonStatus
  pub config : DaemonConfig F
  pub restart_policy : RestartPolicy F
  pub restart_count : ℕ  -- u32
  pub last_health : Option HealthStatus
  pub last_started : Option ℕ
  pub context_handle : Option ℕ

pub record DaemonManager (F : Type 0) : Type 0 where
  pub daemons : List (DaemonId × ManagedDaemon F)
  pub health_check_interval : ℕ
  pub shutdown_timeout : ℕ

module _ {F : Type 0} where
  -- `ManagedDaemon::new`, then `with_restart_policy`.
  abbrev pub new_daemon : DaemonId → String → DaemonConfig F → ManagedDaemon F
  new_daemon id name c = record {
    id = id;
    name = name;
    status = created;
    config = c;
    restart_policy = on_failure;
    restart_count = 0;
    last_health = none;
    last_started = none;
    context_handle = none;
  }

  abbrev pub with_restart_policy : ManagedDaemon F → RestartPolicy F → ManagedDaemon F
  with_restart_policy d policy = record d { restart_policy = policy }

  unfoldable pub new : DaemonManager F
  new = record { daemons = []; health_check_interval = 30000000000; shutdown_timeout = 30000000000 }

  abbrev pub contains_key : DaemonId → DaemonManager F → Bool
  contains_key id m = elim (Map.lookup id m.daemons) [ none ↦ false | some d ↦ true ]

  -- The daemon is given by what `register` asks of it: its identifier and its name.
  unfoldable pub register :
      DaemonId
      → String
      → DaemonConfig F
      → RestartPolicy F
      → DaemonManager F
      → Result DaemonId × DaemonManager F
  register id name c policy m =
      let managed = with_restart_policy (new_daemon id name c) policy in
      if contains_key id m
      then (err (config (about "daemon {} already registered" id)), m)
      else (ok id, record m { daemons = Map.insert id managed m.daemons })

  -- `daemons.get(&id).ok_or_else(...)`, with which the methods begin.
  unfoldable pub get : DaemonId → DaemonManager F → Result (ManagedDaemon F)
  get id m = elim (Map.lookup id m.daemons) [
    | none ↦ err (not_found (about "{}" id))
    | some d ↦ ok d
  ]

  abbrev pub remove_checked :
      DaemonId → Result (ManagedDaemon F) → DaemonManager F → Result (Unit {0}) × DaemonManager F
  remove_checked id (err e) m = (err e, m)
  remove_checked id (ok d) m =
      if is_active d.status
      then (err (state (about "cannot unregister active daemon {}" id)), m)
      else (ok tt, record m { daemons = Map.remove id m.daemons })

  unfoldable pub unregister : DaemonId → DaemonManager F → Result (Unit {0}) × DaemonManager F
  unfolding get
  unregister id m = remove_checked id (get id m) m

  unfoldable pub status : DaemonId → DaemonManager F → Result DaemonStatus
  unfolding get
  status id m = do d ← get id m; ok d.status

  unfoldable pub count : DaemonManager F → ℕ
  count m = length m.daemons

  unfoldable pub list : DaemonManager F → List DaemonId
  list m = Map.keys m.daemons

  -- The methods that lock one daemon and write to it: the new daemon and the answer.
  abbrev pub write_back {ℓ} :
      {A : Type ℓ}
      → DaemonId
      → Result (ManagedDaemon F)
      → (ManagedDaemon F → ManagedDaemon F × A)
      → DaemonManager F
      → Result A × DaemonManager F
  write_back id (err e) change m = (err e, m)
  write_back id (ok d) change m =
      (ok (change d).1, record m { daemons = Map.insert id (change d).0 m.daemons })

  unfoldable pub update_status :
      DaemonId → DaemonStatus → DaemonManager F → Result (Unit {0}) × DaemonManager F
  unfolding get
  update_status id s m = write_back id (get id m) (λ d. (record d { status = s }, tt)) m

  -- `now` is `Instant::now()`.
  unfoldable pub set_context_handle :
      ℕ → DaemonId → ℕ → DaemonManager F → Result (Unit {0}) × DaemonManager F
  unfolding get
  set_context_handle now id handle m =
      write_back id (get id m)
        (λ d. (record d { context_handle = some handle; last_started = some now }, tt)) m

  unfoldable pub increment_restart_count : DaemonId → DaemonManager F → Result ℕ × DaemonManager F
  unfolding get
  increment_restart_count id m =
      write_back id (get id m)
        (λ d. let n = wrap32 (d.restart_count + 1) in (record d { restart_count = n }, n)) m

  unfoldable pub get_restart_policy : DaemonId → DaemonManager F → Result (RestartPolicy F)
  unfolding get
  get_restart_policy id m = do d ← get id m; ok d.restart_policy

  unfoldable pub get_restart_count : DaemonId → DaemonManager F → Result ℕ
  unfolding get
  get_restart_count id m = do d ← get id m; ok d.restart_count

  unfoldable pub update_health :
      DaemonId → HealthStatus → DaemonManager F → Result (Unit {0}) × DaemonManager F
  unfolding get
  update_health id h m = write_back id (get id m) (λ d. (record d { last_health = some h }, tt)) m

  unfoldable pub get_health : DaemonId → DaemonManager F → Result (Option HealthStatus)
  unfolding get
  get_health id m = do d ← get id m; ok d.last_health

-- The channels of all handles.
module _ (p : Mpsc) where
  abbrev pub Channels : Type 0
  Channels = ℕ → p.Chan

  abbrev pub put : ℕ → p.Chan → Channels → Channels
  put k c chans j = if k == j then c else chans j

  abbrev pub deliver :
      DaemonId → Option ℕ → Signal → Channels → Option (Result (Unit {0}) × Channels)
  deliver id none s chans = some (err (state (about "daemon {} has no context handle" id)), chans)
  deliver id (some k) s chans = elim (send_signal p s (chans k)) [
    | some (ok c) ↦ some (ok tt, put k c chans)
    | some (err e) ↦ some (err e, chans)
    | none ↦ none
  ]

module _ {F : Type 0} (p : Mpsc) where
  abbrev pub signal_checked :
      DaemonId
      → Result (ManagedDaemon F)
      → Signal
      → Channels p
      → Option (Result (Unit {0}) × Channels p)
  signal_checked id (err e) s chans = some (err e, chans)
  signal_checked id (ok d) s chans =
      if not (can_signal d.status)
      then some (
        err (state (about_status "daemon {} cannot receive signals in state {:?}" id d.status)),
        chans,
      )
      else deliver p id d.context_handle s chans

  -- `none` while the send waits for room in the daemon's channel, with both locks held.
  unfoldable pub signal :
      DaemonManager F → DaemonId → Signal → Channels p → Option (Result (Unit {0}) × Channels p)
  unfolding get send_signal
  signal m id s chans = signal_checked id (get id m) s chans

  -- The loop of `shutdown_all`, which logs an error and goes on.
  unfoldable pub signal_each :
      DaemonManager F → List DaemonId → Signal → Channels p → Option (Channels p)
  signal_each m [] s chans = some chans
  signal_each m (id ∷ ids) s chans = elim (signal m id s chans) [
    | none ↦ none
    | some (r, chans') ↦ signal_each m ids s chans'
  ]

  unfoldable pub shutdown_all :
      DaemonManager F → Channels p → Option (Result (Unit {0}) × Channels p)
  unfolding signal_each list
  shutdown_all m chans = elim (signal_each m (list m) term chans) [
    | none ↦ none
    | some chans' ↦ some (ok tt, chans')
  ]
