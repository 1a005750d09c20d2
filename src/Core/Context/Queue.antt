-- ===== src/Core/Context/Queue.antt =====
-- A list with a bound: a concrete channel that meets the interface `Mpsc`.
use duende.Prelude.{
  ℕ, ◌<◌, ◌≤◌, ◌≡◌, refl, Bool, true, false, Option, none, some, List, [], ◌∷◌, ◌++◌, length, arith,
  ltb, if◌then◌else◌,
}
use duende.Core.Types.{Signal}
use duende.Core.Context.{Mpsc, Sending, sent, refused, waits}

pub record Queue : Type 0 where
  pub items : List Signal
  pub bound : ℕ
  pub closed : Bool

abbrev pub enqueue : Signal → Queue → Sending Queue
enqueue s c =
    if c.closed
    then refused
    else if ltb (length c.items) c.bound
    then sent (record c { items = c.items ++ (s ∷ []) })
    else waits

abbrev pub pop : List Signal → Queue → Option (Signal × Queue)
pop [] c = none
pop (s ∷ ss) c = some (s, record c { items = ss })

pub enqueue_closed : (s : Signal) (c : Queue) → c.closed ≡ true → enqueue s c ≡ refused
enqueue_closed s c h = ground arith

pub enqueue_full :
    (s : Signal) (c : Queue) → c.closed ≡ false → c.bound ≤ length c.items → enqueue s c ≡ waits
enqueue_full s c o h = ground arith

pub enqueue_room :
    (s : Signal) (c : Queue)
    → c.closed ≡ false
    → length c.items < c.bound
    → (c' : Queue) × (enqueue s c ≡ sent c')
      × (c'.items ≡ c.items ++ (s ∷ []))
      × (c'.bound ≡ c.bound)
      × (c'.closed ≡ false)
enqueue_room s c o h = (record c { items = c.items ++ (s ∷ []) }, ground arith, refl, refl, o)

pub pop_empty : (c : Queue) → c.items ≡ [] → pop c.items c ≡ none
pop_empty c h = ground arith

pub pop_item :
    (c : Queue) (s : Signal) (rest : List Signal)
    → c.items ≡ s ∷ rest
    → (c' : Queue) × (pop c.items c ≡ some (s, c'))
      × (c'.items ≡ rest)
      × (c'.bound ≡ c.bound)
      × (c'.closed ≡ c.closed)
pop_item c s rest h = (record c { items = rest }, ground arith, refl, refl, refl)

abbrev pub bounded : Mpsc
bounded = record {
  Chan = Queue;
  channel = λ n. record { items = []; bound = n; closed = false };
  contents = λ c. c.items;
  capacity = λ c. c.bound;
  is_closed = λ c. c.closed;
  send = enqueue;
  try_recv = λ c. pop c.items c;
  channel_lem = λ n. (refl, refl, refl);
  send_closed = enqueue_closed;
  send_full = enqueue_full;
  send_room = enqueue_room;
  try_recv_empty = pop_empty;
  try_recv_item = pop_item;
}
