-- ===== src/Platform/Commands.antt =====
-- What the adapters of crates/duende-platform/src share: the commands that they run, and their
-- outcomes as results of that crate.
use duende.Prelude.{ℕ, Option, String, List, if◌then◌else◌}
use duende.Core.Adapter.{Message, text, with_code, with_text}
use duende.Core.Adapters.Tool.{Call, not_run, finished, Tool, success}
use duende.Platform.Error.{PlatformError, Result, ok, err}

-- The commands and the files; a write gives its error code if it fails.
pub record Host : Type 1 where
  pub tool : Tool
  pub write : List ℕ → List ℕ → tool.State → Option ℕ × tool.State

-- The output of a command, whatever its exit code.
abbrev pub output : (Message → PlatformError) → String → Call → Result (List ℕ)
output failure title (not_run code) = err (failure (with_code title code))
output failure title (finished code out error) = ok out

-- The output of a command that must succeed.
abbrev pub checked : (Message → PlatformError) → String → Call → Result (List ℕ)
checked failure title (not_run code) = err (failure (with_code title code))
checked failure title (finished code out error) =
    if success code then ok out else err (failure (with_text title error))

-- The output of a command; a failure has a message without its errors.
abbrev pub checked_or : (Message → PlatformError) → String → String → Call → Result (List ℕ)
checked_or failure title refusal (not_run code) = err (failure (with_code title code))
checked_or failure title refusal (finished code out error) =
    if success code then ok out else err (failure (text refusal))
