-- ===== src/Lib.antt =====
-- duende is a framework that runs daemons on several platforms with one lifecycle, in the manner
-- of the Toyota production system. This development models the parts of it that hold logic of
-- their own, as functions on explicit states.
--
-- The parts and how they interact:
-- - crates/duende-core/src: Core.Types (types.rs: states, signals), Core.Error (error.rs),
--   Core.Config (config.rs: the configuration and its check), Core.Context (daemon.rs:
--   `DaemonContext` and its handle, joined by a channel of signals), Core.Restart (manager.rs:
--   `RestartPolicy`, `BackoffConfig`), Core.Metrics (metrics.rs: counters that threads share)
--   and Core.Manager (manager.rs: `DaemonManager`, a table of daemons that signals them through the
--   handles of their contexts).
-- - crates/duende-core/src: also Core.Adapter (adapter.rs: errors, handles and the trait's default
--   operations) and Core.Adapters (adapters/: native.rs, wos.rs, systemd.rs, container.rs, launchd.rs
--   and pepita.rs), which the manager's daemons would run by. Core.Adapters.Timed joins two of them
--   to the default operations.
-- - crates/duende-policy/src: Policy.CircuitBreaker (circuit_breaker.rs), Policy.Gate (gate.rs),
--   Policy.Jidoka (jidoka.rs) and Policy.Limiter (limiter.rs: limits, written to the files of a
--   control group), each on its own.
-- - crates/duende-platform/src: Platform.Error (error.rs), Platform.Handle (adapter.rs, detect.rs:
--   handles, with the PID as a text), Platform.Wos (wos.rs: the adapter that simulates processes),
--   Platform.Linux, Platform.Container, Platform.MacOs, Platform.Pepita and Platform.Native (the
--   adapters of those names, which run commands or signal processes), all of which but the last read
--   the default configuration of Core.Config, and Platform.Memory (memory.rs).
-- - crates/duende-mlock/src: Mlock (config.rs, error.rs, status.rs) and Mlock.System (unix.rs, lib.rs:
--   locking of memory). Mlock.Reading and Mlock.Agreement compare it with Platform.Memory.
-- - crates/duende-observe/src: Observe.Proc (monitor.rs, error.rs: the parsers of /proc) and
--   Observe.Monitor (monitor.rs: `DaemonMonitor`), and Observe.Tracer (tracer.rs: `DaemonTracer`).
-- - crates/duende-ublk/src: Ublk.Error (error.rs), Ublk.Sys (sys.rs: the kernel's numbers and
--   structures), Ublk.Control (control.rs: commands through a ring) and Ublk.Devices (control.rs:
--   orphaned devices and their removal, by those commands).
-- - Prelude holds what they share: Boolean tests, lists, maps, machine words and their bytes, decimal
--   texts, `str`, and the interfaces to IEEE floats and to a file system.
--
-- A definition has the name of the function or type that it models, in this language's spelling;
-- an operation takes the state and returns the result with the state after it. A method that takes
-- a lock for its whole length is one step; in Core.Metrics each access of an atomic is one. The time
-- that the code reads from a clock is an argument. Numbers of w bits are native numbers with their
-- wrap-around, that of a release build, written out where the code can reach it.
--
-- What is not in the source is an argument with its documented behaviour as laws: tokio's bounded
-- `mpsc` (Core.Context.Mpsc), `f64` (Prelude.Float.F64), its products and powers and the conversions
-- of `Duration` (Core.Restart.FloatTime and FloatTimeLaws, and without laws Observe.Monitor.Arithmetic,
-- Observe.Tracer.Patterns.Arithmetic and Policy.Limiter.Arithmetic),
-- `char::is_alphanumeric`, the TOML parser (Core.Config.load), the file system (Prelude.Disk.Disk,
-- Ublk.Devices.Files), `io_uring` (Ublk.Control.Ring), the processes of the system
-- (Core.Adapters.Native.Children, Platform.Native.Processes), the command-line tools
-- (Core.Adapters.Tool.Tool, with a clock Core.Adapters.Timed.TimedTool, with files
-- Core.Adapters.Launchd.Operations.Host and Platform.Commands.Host) and the calls that lock memory
-- (Mlock.System.System). Each interface with laws has an instance that shows they can hold.
--
-- The loops that wait (Ublk.Control.poll, Core.Adapter.wait, Core.Adapters.Native.wait) run on fuel, the
-- time allowed divided by the pause between two rounds, and 2: each round takes its pause at least.
-- The printer of decimal numbers stops at 20 digits: a 64-bit number has no more.
--
-- Not modelled: the health monitor, which is not compiled, the test support, the selection among
-- adapters, and texts for people (error texts, logs). Threads that interleave inside one operation of
-- the circuit breaker are not modelled either.
pub mod Prelude
pub mod Core
pub mod Policy
pub mod Platform
pub mod Observe
pub mod Ublk
pub mod Mlock
