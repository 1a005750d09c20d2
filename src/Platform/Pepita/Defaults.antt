-- ===== src/Platform/Pepita/Defaults.antt =====
-- The adapter's own defaults against the configuration that `spawn` makes
-- (crates/duende-platform/src/pepita.rs).
use duende.Prelude.{ℕ, ◌≡◌, String, true, arith}
use duende.Prelude.Float.{F64}
use duende.Core.Config
use duende.Core.Adapters.Tool.{Tool}
use duende.Platform.Pepita.{PepitaAdapter, with_vcpus, with_memory_mb, build_run_args, spawn}

module _ (f : F64) (ceil_hundredth : f.Carrier → ℕ) (t : Tool) where
  quota_positive : f.lt (f.of_nat 0) (f.of_nat 100) ≡ true
  quota_positive = ground (arith, f.lt-of_nat 0 100 (omega arith) (omega arith))

  -- The number of processors and the memory that an adapter is given make no difference to a machine
  -- that it starts, in the calls that it makes, its result and the counter afterwards.
  pub spawn-with_memory_mb :
      (a : PepitaAdapter) (processors memory next : ℕ) (name : String) (s : t.State)
      → spawn t f ceil_hundredth (with_memory_mb (with_vcpus a processors) memory) name next s
        ≡ spawn t f ceil_hundredth a name next s
  unfolding spawn build_run_args Config.new
  spawn-with_memory_mb a processors memory next name s =
      simp (quota_positive, Config.default_resources)
