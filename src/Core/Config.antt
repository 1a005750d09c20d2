-- ===== src/Core/Config.antt =====
-- crates/duende-core/src/config.rs: the configuration of a daemon, its defaults and its check.
-- Durations are nanoseconds, paths are texts; `f64` is the carrier `F` of the interface `F64`, and
-- `char::is_alphanumeric`, the file system and the TOML parser are arguments.
pub mod Validity
use Prim.Native.Char.{Char, code}
use duende.Prelude.{
  ℕ, Bool, true, false, not, ◌&&◌, ◌||◌, Option, none, some, List, [], String, ◌==◌,
}
use duende.Prelude.Float.{F64}
use duende.Core.Error.{Result, ok, err, ◌>>=◌, ◌>>◌, fail_if, text, config}
use duende.Core.Error.{DaemonError}

pub record ResourceConfig (F : Type 0) : Type 0 where
  pub memory_bytes : ℕ  -- u64
  pub memory_swap_bytes : ℕ  -- u64
  pub cpu_quota_percent : F
  pub cpu_shares : ℕ  -- u64
  pub io_read_bps : ℕ  -- u64
  pub io_write_bps : ℕ  -- u64
  pub pids_max : ℕ  -- u64
  pub open_files_max : ℕ  -- u64
  pub lock_memory : Bool
  pub lock_memory_required : Bool

pub record HealthCheckConfig : Type 0 where
  pub enabled : Bool
  pub interval : ℕ
  pub timeout : ℕ
  pub retries : ℕ  -- u32

-- `config::RestartPolicy`, not the policy of the manager.
pub data ConfigRestart : Type 0 where
  never on_failure always unless_stopped : ConfigRestart

pub record PlatformConfig : Type 0 where
  pub container_image : Option String
  pub vcpus : Option ℕ  -- u32
  pub kernel_path : Option String
  pub rootfs_path : Option String
  pub priority : Option ℕ  -- u8

pub record DaemonConfig (F : Type 0) : Type 0 where
  pub name : String
  pub version : String
  pub description : String
  pub binary_path : String
  pub config_path : Option String
  pub args : List String
  pub env : List (String × String)
  pub user : Option String
  pub group : Option String
  pub working_dir : Option String
  pub resources : ResourceConfig F
  pub health_check : HealthCheckConfig
  pub restart : ConfigRestart
  pub shutdown_timeout : ℕ
  pub platform : PlatformConfig

abbrev pub default_health_check : HealthCheckConfig
default_health_check = record {
  enabled = true;
  interval = 30000000000;
  timeout = 10000000000;
  retries = 3;
}

abbrev pub default_platform : PlatformConfig
default_platform = record {
  container_image = none;
  vcpus = none;
  kernel_path = none;
  rootfs_path = none;
  priority = none;
}

abbrev pub is_empty : String → Bool
is_empty String.[] = true
is_empty (String.◌∷◌ c s) = false

-- The closure of `chars().all(...)`; 45 is '-' and 95 is '_'.
abbrev pub is_name_char : (Char → Bool) → Char → Bool
is_name_char is_alphanumeric c = is_alphanumeric c || (code c == 45 || code c == 95)

abbrev pub all_chars : (Char → Bool) → String → Bool
all_chars p String.[] = true
all_chars p (String.◌∷◌ c s) = p c && all_chars p s

module _ (f : F64) where
  unfoldable pub default_resources : ResourceConfig f.Carrier
  default_resources = record {
    memory_bytes = 536870912;
    memory_swap_bytes = 1073741824;
    cpu_quota_percent = f.of_nat 100;
    cpu_shares = 1024;
    io_read_bps = 0;
    io_write_bps = 0;
    pids_max = 100;
    open_files_max = 1024;
    lock_memory = false;
    lock_memory_required = false;
  }

  unfoldable pub new : String → String → DaemonConfig f.Carrier
  unfolding default_resources
  new name binary_path = record {
    name = name;
    version = "0.1.0";
    description = "";
    binary_path = binary_path;
    config_path = none;
    args = [];
    env = [];
    user = none;
    group = none;
    working_dir = none;
    resources = default_resources;
    health_check = default_health_check;
    restart = on_failure;
    shutdown_timeout = 30000000000;
    platform = default_platform;
  }

  -- `ResourceConfig::validate`.
  unfoldable pub validate_resources : ResourceConfig f.Carrier → Result (Unit {0})
  validate_resources r = do
    fail_if (r.memory_bytes == 0) (config (text "memory_bytes must be greater than 0"))
    fail_if (f.le r.cpu_quota_percent (f.of_nat 0))
        (config (text "cpu_quota_percent must be positive"))
    fail_if (r.pids_max == 0) (config (text "pids_max must be greater than 0"))

  unfoldable pub validate : (Char → Bool) → DaemonConfig f.Carrier → Result (Unit {0})
  unfolding validate_resources
  validate is_alphanumeric c = do
    fail_if (is_empty c.name) (config (text "name cannot be empty"))
    fail_if (not (all_chars (is_name_char is_alphanumeric) c.name))
        (config (text "name must contain only alphanumeric characters, hyphens, and underscores"))
    fail_if (is_empty c.binary_path) (config (text "binary_path cannot be empty"))
    validate_resources c.resources

  -- `read` and `parse` return the message of the failure, or the contents and the configuration.
  unfoldable pub load :
      (Char → Bool)
      → (String → Result String)
      → (String → Result (DaemonConfig f.Carrier))
      → String
      → Result (DaemonConfig f.Carrier)
  load is_alphanumeric read parse path = do
    content ← read path
    c ← parse content
    validate is_alphanumeric c
    ok c
