-- ===== src/Core/Adapters/Pepita/Machines.antt =====
-- The table of machines under every sequence of operations (core's adapters/pepita.rs).
use duende.Prelude.{ℕ, ◌+◌, ◌<◌, ◌≤◌, ◌≡◌, ◌⊎◌, Bool, some, List}
use duende.Prelude.Map.{lookup}
use duende.Core.Types.{DaemonId, Signal}
use duende.Core.Adapter.{DaemonHandle}
use duende.Core.Adapters.Tool.{Tool}
use duende.Core.Adapters.Pepita.{
  VmInfo, PepitaAdapter, spawn, send_signal, status, destroy, list_vms,
}

-- Every machine's address is below the counter and none of those that are reserved, and no two
-- machines have one address.
pub record IsAllocated (next : ℕ) (vms : List (DaemonId × VmInfo)) : Type 0 where
  pub ahead : 3 ≤ next
  pub within :
      (id : DaemonId) (info : VmInfo)
      → lookup id vms ≡ some info
      → (3 ≤ info.vsock_cid) × (info.vsock_cid < next)
  pub apart :
      (id at : DaemonId) (info other : VmInfo)
      → lookup id vms ≡ some info
      → lookup at vms ≡ some other
      → info.vsock_cid ≡ other.vsock_cid
      → id ≡ at

module _ (t : Tool) where
  -- One operation; it starts a machine at most.
  pub data Step (a : PepitaAdapter t) : PepitaAdapter t → Type 0 where
    spawns : (kvm : Bool) (id : DaemonId) (name : List ℕ) → Step a (spawn t kvm id name a).1
    signals : (h : DaemonHandle) (sig : Signal) → Step a (send_signal t h sig a).1
    asks : (h : DaemonHandle) → Step a (status t h a).1
    destroys : (name : List ℕ) → Step a (destroy t name a).1
    lists : Step a (list_vms t a).1

  pub data Steps (a : PepitaAdapter t) : ℕ → PepitaAdapter t → Type 0 where
    none_yet : Steps a 0 a
    then_one : {n : ℕ} {b c : PepitaAdapter t} → Steps a n b → Step b c → Steps a (n + 1) c

  -- The counter moves by one at most.
  Moves : ℕ → PepitaAdapter t → Type 0
  Moves next b = IsAllocated b.next_cid b.vms × ((b.next_cid ≡ next) ⊎ (b.next_cid ≡ next + 1))
