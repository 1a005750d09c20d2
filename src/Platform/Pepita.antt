-- ===== src/Platform/Pepita.antt =====
-- crates/duende-platform/src/pepita.rs: virtual machines by the tool `pepita`. The counter `NEXT_CID`
-- is passed to the call that uses it.
pub mod Defaults
use duende.Prelude.{
  ℕ, ◌+◌, ◌/◌, ◌||◌, Bool, true, false, Option, none, some, String, List, [], ◌∷◌, ◌++◌, ltb, ◌==◌,
  if◌then◌else◌, wrap32, u32_mod,
}
use duende.Prelude.Float.{F64}
use duende.Prelude.Text.{chars, contains, trim, lines_from}
use duende.Prelude.Decimal.{to_string, parse}
use duende.Core.Types.{
  pos, DaemonStatus, running, stopped, failed, starting, stopping, created, exit_code, Signal, hup,
  int, quit, term, kill, usr1, usr2, stop, cont,
}
use duende.Core.Config
use duende.Core.Config.{DaemonConfig}
use duende.Core.Adapter.{text, with_code}
use duende.Core.Adapters.Tool.{Call, not_run, finished, Tool, success, replace}
use duende.Core.Adapters.Wos.{to_lowercase}
use duende.Core.Adapters.Launchd.{split_from}
use duende.Platform.Error.{PlatformError, Result, ok, err, ◌>>=◌}
use duende.Platform.Handle.{DaemonHandle, TracerHandle, pepita_micro_vm, is_for, pepita_handle}
use duende.Platform.Commands.{checked, checked_or}
use duende.Platform.Container.{name_or, texts}
use duende.Platform.MacOs.{second}

pub record PepitaAdapter : Type 0 where
  pub pepita_path : List ℕ
  pub default_vcpus : ℕ  -- u32
  pub default_memory_mb : ℕ  -- u64
  pub kernel_path : Option (List ℕ)
  pub rootfs_path : Option (List ℕ)
  pub vsock_port : ℕ  -- u32

abbrev pub with_binary : List ℕ → PepitaAdapter
with_binary path = record {
  pepita_path = path;
  default_vcpus = 1;
  default_memory_mb = 512;
  kernel_path = none;
  rootfs_path = none;
  vsock_port = 5000;
}

abbrev pub new : PepitaAdapter
new = with_binary (chars "pepita")

abbrev pub with_vcpus : PepitaAdapter → ℕ → PepitaAdapter
with_vcpus a vcpus = record a { default_vcpus = vcpus }

abbrev pub with_memory_mb : PepitaAdapter → ℕ → PepitaAdapter
with_memory_mb a memory_mb = record a { default_memory_mb = memory_mb }

abbrev pub with_kernel : PepitaAdapter → List ℕ → PepitaAdapter
with_kernel a path = record a { kernel_path = some path }

abbrev pub with_rootfs : PepitaAdapter → List ℕ → PepitaAdapter
with_rootfs a path = record a { rootfs_path = some path }

abbrev pub with_vsock_port : PepitaAdapter → ℕ → PepitaAdapter
with_vsock_port a port = record a { vsock_port = port }

unfoldable pub vm_name : List ℕ → List ℕ
unfolding replace
vm_name daemon_name = chars "duende-vm-" ++ replace 32 45 daemon_name

abbrev pub at_least_one : ℕ → ℕ
at_least_one n = if ltb n 1 then 1 else n

abbrev pub path_option : String → Option (List ℕ) → List (List ℕ)
path_option name none = []
path_option name (some path) = chars name ∷ path ∷ []

-- `ceil_hundredth` is a hundredth of the quota, rounded up, as a u32.
module _ (f : F64) (ceil_hundredth : f.Carrier → ℕ) where
  abbrev pub vcpus : PepitaAdapter → DaemonConfig f.Carrier → ℕ
  vcpus a c =
      if f.lt (f.of_nat 0) c.resources.cpu_quota_percent
      then at_least_one (ceil_hundredth c.resources.cpu_quota_percent)
      else a.default_vcpus

  abbrev pub memory_mb : PepitaAdapter → DaemonConfig f.Carrier → ℕ
  memory_mb a c =
      if ltb 0 c.resources.memory_bytes
      then c.resources.memory_bytes / 1048576
      else a.default_memory_mb

  unfoldable pub build_run_args : PepitaAdapter → DaemonConfig f.Carrier → ℕ → List (List ℕ)
  unfolding vm_name
  build_run_args a c cid =
      chars "run"
      ∷ chars "--name"
      ∷ vm_name (chars c.name)
      ∷ chars "--vcpus"
      ∷ to_string (vcpus a c)
      ∷ chars "--memory"
      ∷ (to_string (memory_mb a c) ++ chars "M")
      ∷ (path_option "--kernel" a.kernel_path
          ++ (path_option "--rootfs" a.rootfs_path
              ++ (chars "--vsock"
                  ∷ (chars "cid=" ++ (to_string cid ++ (chars ",port=" ++ to_string a.vsock_port)))
                  ∷ chars "--exec"
                  ∷ chars c.binary_path
                  ∷ texts c.args)))

abbrev pub says : String → String → List ℕ → Bool
says one other out = contains (chars one) out || contains (chars other) out

abbrev pub of_words : List ℕ → DaemonStatus
of_words out =
    if contains (chars "running") out
    then running
    else if says "stopped" "shutdown" out
    then stopped
    else if says "crashed" "failed" out
    then failed (exit_code (pos 1))
    else if says "booting" "starting" out
    then starting
    else if says "pausing" "stopping" out
    then stopping
    else created

unfoldable pub parse_status : List ℕ → DaemonStatus
unfolding contains
parse_status out = of_words (to_lowercase out)

unfoldable pub signal_name : Signal → List ℕ
signal_name term = chars "TERM"
signal_name kill = chars "KILL"
signal_name hup = chars "HUP"
signal_name int = chars "INT"
signal_name quit = chars "QUIT"
signal_name usr1 = chars "USR1"
signal_name usr2 = chars "USR2"
signal_name stop = chars "STOP"
signal_name cont = chars "CONT"

-- `trim_matches` of quotes (34) and commas (44).
abbrev pub is_mark : ℕ → Bool
is_mark c = (c == 34) || (c == 44)

abbrev pub trim_marks_end : List ℕ → List ℕ
trim_marks_end [] = []
trim_marks_end (c ∷ cs) = elim (trim_marks_end cs) [
  | [] ↦ if is_mark c then [] else c ∷ []
  | d ∷ ds ↦ c ∷ d ∷ ds
]

abbrev pub trim_marks_start : List ℕ → List ℕ
trim_marks_start [] = []
trim_marks_start (c ∷ cs) = let rest = trim_marks_start cs in if is_mark c then rest else c ∷ cs

abbrev pub number_of : Option (List ℕ) → Option ℕ
number_of none = none
number_of (some word) = parse u32_mod (trim_marks_end (trim_marks_start (trim word)))

-- The first line with an address that can be read (58 is ':'), and 3 if there is none.
unfoldable pub find_cid : List (List ℕ) → ℕ
unfolding contains split_from parse
find_cid [] = 3
find_cid (l ∷ ls) =
    let later = find_cid ls in
    if contains (chars "\"cid\":") l
    then elim (number_of (second (split_from 58 [] l))) [ some cid ↦ cid | none ↦ later ]
    else later

abbrev pub nonempty : List ℕ → Option (List ℕ)
nonempty [] = none
nonempty (c ∷ cs) = some (c ∷ cs)

abbrev pub status_answer : Call → Result DaemonStatus
status_answer (not_run code) = err (PlatformError.status (with_code "pepita status failed: " code))
status_answer (finished code out error) = ok (if success code then parse_status out else stopped)

module _ (t : Tool) where
  -- The configuration is the default one of the daemon's name and `/bin/daemon`; the second result is
  -- the counter afterwards.
  unfoldable pub spawn :
      (f : F64)
      → (f.Carrier → ℕ)
      → PepitaAdapter
      → String
      → ℕ
      → t.State
      → Result DaemonHandle × ℕ × t.State
  unfolding build_run_args vm_name Config.new
  spawn f ceil_hundredth a name next s =
      let config = Config.new f name "/bin/daemon" in
      let args = a.pepita_path ∷ build_run_args f ceil_hundredth a config next in
      (
        checked PlatformError.spawn "pepita run failed: " (t.run args s).0 >>= λ out.
            ok (pepita_handle (name_or (vm_name (chars name)) (nonempty (trim out)))),
        wrap32 (next + 1),
        (t.run args s).1,
      )

  unfoldable pub send_signal :
      PepitaAdapter → DaemonHandle → Signal → t.State → Result (Unit {0}) × t.State
  unfolding signal_name
  send_signal a h sig s =
      let args =
        a.pepita_path
        ∷ chars "signal"
        ∷ chars "--vm"
        ∷ h.id
        ∷ chars "--signal"
        ∷ signal_name sig
        ∷ [] in
      if is_for pepita_micro_vm h
      then (
        checked PlatformError.signal "pepita signal failed: " (t.run args s).0 >>= λ out. ok tt,
        (t.run args s).1,
      )
      else (err (PlatformError.signal (text "not a pepita handle")), s)

  unfoldable pub status : PepitaAdapter → DaemonHandle → t.State → Result DaemonStatus × t.State
  unfolding parse_status
  status a h s =
      let args = a.pepita_path ∷ chars "status" ∷ chars "--vm" ∷ h.id ∷ [] in
      if is_for pepita_micro_vm h
      then (status_answer (t.run args s).0, (t.run args s).1)
      else (err (PlatformError.status (text "not a pepita handle")), s)

  abbrev pub tracer_of : PepitaAdapter → List ℕ → TracerHandle
  tracer_of a out = record {
    platform = pepita_micro_vm;
    id =
        chars "vsock:"
        ++ (to_string (find_cid (lines_from [] out)) ++ (58 ∷ to_string a.vsock_port));
  }

  unfoldable pub attach_tracer :
      PepitaAdapter → DaemonHandle → t.State → Result TracerHandle × t.State
  unfolding find_cid lines_from
  attach_tracer a h s =
      let args =
        a.pepita_path ∷ chars "info" ∷ chars "--vm" ∷ h.id ∷ chars "--format" ∷ chars "json" ∷ [] in
      if is_for pepita_micro_vm h
      then (
        checked_or PlatformError.tracer "failed to get VM info: " "VM not running" (t.run args s).0
            >>= λ out. ok (tracer_of a out),
        (t.run args s).1,
      )
      else (err (PlatformError.tracer (text "not a pepita handle")), s)
