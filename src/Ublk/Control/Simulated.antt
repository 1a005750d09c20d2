-- ===== src/Ublk/Control/Simulated.antt =====
-- A ring whose kernel completes each submission at once with success: the interface `Ring` can be
-- had.
use duende.Prelude.{
  ℕ, zero, suc, ◌+◌, ◌≡◌, refl, Bool, true, false, Option, none, some, List, [], ◌∷◌, ◌++◌, arith,
  ltb,
}
use duende.Core.Types.{ℤ, pos}
use duende.Ublk.Control.{Ring, Sqe, sleep_ns}

pub record Kernel : Type 0 where
  pub waiting : List ℤ
  pub log : List Sqe
  pub clock : ℕ
  pub queued : ℕ

abbrev successes : ℕ → List ℤ
successes zero = []
successes (suc n) = pos 0 ∷ successes n

-- A ring of four places, as the program builds it.
abbrev kernel_room : Kernel → Bool
kernel_room k = ltb k.queued 4

abbrev kernel_push : Sqe → Kernel → Option Kernel
kernel_push q k = elim (kernel_room k) [
  | true ↦ some record k { log = k.log ++ (q ∷ []); queued = k.queued + 1 }
  | false ↦ none
]

abbrev kernel_submit : Kernel → Option ℕ × Kernel
kernel_submit k = (none, record k { waiting = k.waiting ++ successes k.queued; queued = 0 })

abbrev kernel_next : Kernel → Option (ℤ × Kernel)
kernel_next k = elim k.waiting [ [] ↦ none | r ∷ rs ↦ some (r, record k { waiting = rs }) ]

pub push_room :
    (q : Sqe) (k : Kernel)
    → kernel_room k ≡ true
    → (k' : Kernel) × (kernel_push q k ≡ some k')
      × (k'.waiting ≡ k.waiting)
      × (k'.log ≡ k.log ++ (q ∷ []))
push_room q k free = (
  record k { log = k.log ++ (q ∷ []); queued = k.queued + 1 },
  rw (free, kernel_push) refl,
  refl,
  refl,
)

pub next_item :
    (k : Kernel) (r : ℤ) (rs : List ℤ)
    → k.waiting ≡ r ∷ rs
    → (k' : Kernel) × (kernel_next k ≡ some (r, k'))
      × (k'.waiting ≡ rs)
      × (k'.log ≡ k.log)
      × (kernel_room k' ≡ kernel_room k)
next_item k r rs e = (record k { waiting = rs }, rw (e, kernel_next) refl, refl, refl, refl)

abbrev pub simulated : Ring
simulated = record {
  State = Kernel;
  pending = λ k. k.waiting;
  sent = λ k. k.log;
  room = kernel_room;
  now = λ k. k.clock;
  push = kernel_push;
  submit = kernel_submit;
  submit_and_wait = kernel_submit;
  next = kernel_next;
  sleep = λ k. record k { clock = k.clock + sleep_ns };
  push_room = push_room;
  push_full = λ q k full. rw (full, kernel_push) refl;
  submit_grows = λ k. (successes k.queued, refl, refl);
  submit_room = λ k _. refl;
  next_empty = λ k e. rw (e, kernel_next) refl;
  next_item = next_item;
  sleep_keeps = λ k. (refl, refl);
  sleep_takes = λ k. omega arith;
}

-- A ring in which an earlier command has left the result `pos 7`.
abbrev pub stale : Kernel
stale = record { waiting = pos 7 ∷ []; log = []; clock = 0; queued = 0 }
