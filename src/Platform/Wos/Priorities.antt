-- ===== src/Platform/Wos/Priorities.antt =====
-- The eight priorities, their numbers and aging (wos.rs).
use duende.Prelude.{ℕ, zero, suc, ◌+◌, ◌≡◌, refl, arith, leb, if◌then◌else◌}
use duende.Platform.Wos.{
  Priority, idle, low, below_normal, normal, above_normal, high, very_high, real_time, as_u8,
  from_u8, age,
}

abbrev pub at_most_7 : ℕ → ℕ
at_most_7 n = if leb n 7 then n else 7

from_u8_known : (p : Priority) → from_u8 (as_u8 p) ≡ p
unfolding from_u8 as_u8
from_u8_known idle = refl
from_u8_known low = refl
from_u8_known below_normal = refl
from_u8_known normal = refl
from_u8_known above_normal = refl
from_u8_known high = refl
from_u8_known very_high = refl
from_u8_known real_time = refl

-- Every priority is read back from its number, and a number that no priority has is read as the
-- highest one.
pub from_u8-as_u8 :
    ((p : Priority) → from_u8 (as_u8 p) ≡ p) × ((n : ℕ) → as_u8 (from_u8 n) ≡ at_most_7 n)
unfolding from_u8 as_u8
from_u8-as_u8 = (from_u8_known, λ n. ground arith)

-- `age`, `n` times.
unfoldable pub ages : ℕ → Priority → Priority
ages zero p = p
ages (suc n) p = ages n (age p)

as_u8-age : (p : Priority) → as_u8 (age p) ≡ at_most_7 (as_u8 p + 1)
unfolding age as_u8
as_u8-age p = ground (arith, from_u8-as_u8.1 (as_u8 p + 1))

as_u8_bound : (p : Priority) → at_most_7 (as_u8 p) ≡ as_u8 p
unfolding as_u8
as_u8_bound p = ground arith

-- Aging `n` times raises the number of a priority by `n`, up to the highest: a process that waits
-- for seven rounds has the highest priority, and the number never overflows.
pub as_u8-ages : (n : ℕ) (p : Priority) → as_u8 (ages n p) ≡ at_most_7 (as_u8 p + n)
unfolding ages
as_u8-ages zero p = ground (arith, as_u8_bound p)
as_u8-ages (suc n) p = ground (arith, as_u8-ages n (age p), as_u8-age p, as_u8_bound p)
