-- ===== src/Platform/Handle.antt =====
-- crates/duende-platform/src/adapter.rs and detect.rs: the platforms and the handles of daemons
-- and tracers. An identifier is the list of its characters' codes.
use duende.Prelude.{ℕ, Option, none, some, List, Bool, true, false, ◌==◌}
use duende.Prelude.Decimal.{to_string}

pub data Platform : Type 0 where
  linux mac_os container pepita_micro_vm wos native : Platform

pub record DaemonHandle : Type 0 where
  pub platform : Platform
  pub id : List ℕ
  pub pid : Option ℕ  -- u32

pub record TracerHandle : Type 0 where
  pub platform : Platform
  pub id : List ℕ

abbrev pub native_handle : ℕ → DaemonHandle
native_handle pid = record { platform = native; id = to_string pid; pid = some pid }

abbrev pub systemd_handle : List ℕ → DaemonHandle
systemd_handle unit_name = record { platform = linux; id = unit_name; pid = none }

abbrev pub launchd_handle : List ℕ → DaemonHandle
launchd_handle label = record { platform = mac_os; id = label; pid = none }

abbrev pub container_handle : List ℕ → DaemonHandle
container_handle container_id = record { platform = container; id = container_id; pid = none }

abbrev pub pepita_handle : List ℕ → DaemonHandle
pepita_handle vm_id = record { platform = pepita_micro_vm; id = vm_id; pid = none }

abbrev pub wos_handle : ℕ → DaemonHandle
wos_handle process_id = record { platform = wos; id = to_string process_id; pid = some process_id }

abbrev pub is_wos : Platform → Bool
is_wos wos = true
is_wos _ = false

-- The derived `==` on platforms.
abbrev pub index : Platform → ℕ
index linux = 0
index mac_os = 1
index container = 2
index pepita_micro_vm = 3
index wos = 4
index native = 5

abbrev pub is_for : Platform → DaemonHandle → Bool
is_for p h = index h.platform == index p
