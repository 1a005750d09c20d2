-- ===== src/Mlock/Examples.antt =====
-- The theorems on memory locking at a concrete system (crates/duende-mlock/src).
use duende.Prelude.{ℕ, ◌*◌, ◌≡◌, refl, true, some, none, List, [], ◌∷◌, All, ltb, arith}
use duende.Prelude.Text.{chars, strip_prefix, is_whitespace}
use duende.Prelude.Text.Lines.{unlines, IsLine}
use duende.Prelude.Text.Trimming.{IsBlank}
use duende.Prelude.Decimal.{print}
use duende.Mlock.{default_config}
use duende.Mlock.System.{System, lock_with_config, locked_bytes, is_locked}
use duende.Mlock.Locking.{Outcome, lock_with_config-Outcome}
use duende.Mlock.Reading.{vm_line, IsOther, locked_bytes-vm_line}
use duende.Mlock.Agreement.{both, Agrees, lock_daemon_memory-Agrees}
use duende.Platform.Memory.{lock_daemon_memory, is_memory_locked}

abbrev status_lines : List (List ℕ)
status_lines = chars "Name:\tweb" ∷ vm_line (9 ∷ 32 ∷ []) 64 ∷ chars "VmPin:\t0 kB" ∷ []

-- Every lock is refused for lack of privileges.
abbrev refused : System
refused = record {
  State = ℕ;
  mlockall = λ flags s. (some 1, s);
  munlockall = λ s. (none, s);
  own_status = λ s. some (unlines status_lines);
}

lock_with_config-Outcome_example :
    Outcome refused default_config 0 (lock_with_config refused default_config 0)
lock_with_config-Outcome_example = lock_with_config-Outcome refused default_config 0

lock_daemon_memory-Agrees_example :
    Agrees refused (lock_with_config refused (both true) 0) (lock_daemon_memory refused true 0)
lock_daemon_memory-Agrees_example = lock_daemon_memory-Agrees refused true 0

lines_plain : All IsLine status_lines
unfolding print
lines_plain = ground arith

name-IsOther : All IsOther (chars "Name:\tweb" ∷ [])
unfolding strip_prefix
name-IsOther = (refl, tt)

blanks : IsBlank (9 ∷ 32 ∷ [])
unfolding is_whitespace
blanks = (refl, (refl, tt))

locked_bytes-vm_line_example :
    (locked_bytes refused 0 ≡ 64 * 1024)
    × (is_locked refused 0 ≡ ltb 0 64)
    × (is_memory_locked refused 0 ≡ ltb 0 64)
locked_bytes-vm_line_example =
    locked_bytes-vm_line refused 0 (chars "Name:\tweb" ∷ []) (chars "VmPin:\t0 kB" ∷ []) 9 (32 ∷ [])
      64 refl lines_plain name-IsOther blanks (omega arith)
