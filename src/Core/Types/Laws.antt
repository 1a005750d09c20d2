-- ===== src/Core/Types/Laws.antt =====
-- Laws of the lifecycle predicates and of signal numbers (types.rs).
use duende.Prelude.{◌≡◌, ◌↔◌, ◌⊎◌, true, false, ◌&&◌, some, arith}
use duende.Core.Types.{
  ℤ, pos, negsuc, DaemonStatus, is_terminal, is_active, can_signal, created, starting, stopping,
  Signal, as_i32, from_i32,
}

from-as_i32 : (s : Signal) → from_i32 (as_i32 s) ≡ some s
unfolding as_i32 from_i32
from-as_i32 s = ground arith

as-from_i32 : (n : ℤ) (s : Signal) → from_i32 n ≡ some s → as_i32 s ≡ n
unfolding as_i32 from_i32
as-from_i32 (pos n) s h = ground arith
as-from_i32 (negsuc n) s h = ground arith

-- A number converts to a signal exactly when it is that signal's number: every signal survives
-- the round trip, and no other number, negative ones included, stands for a signal.
pub from_i32_iff : (n : ℤ) (s : Signal) → (from_i32 n ≡ some s) ↔ (as_i32 s ≡ n)
from_i32_iff n s = (as-from_i32 n s, λ e. rw (← e) (from-as_i32 s))

-- A daemon is never both terminal and able to take signals; it takes signals exactly when it is
-- active or stopping; and what is neither terminal nor able to take signals is created or starting.
pub status_classes :
    (s : DaemonStatus)
    → ((is_terminal s && can_signal s) ≡ false)
      × ((can_signal s ≡ true) ↔ ((is_active s ≡ true) ⊎ (s ≡ stopping)))
      × ((is_terminal s ≡ true) ⊎ (can_signal s ≡ true) ⊎ (s ≡ created) ⊎ (s ≡ starting))
unfolding is_terminal is_active can_signal
status_classes s = ground arith
