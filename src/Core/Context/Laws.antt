-- ===== src/Core/Context/Laws.antt =====
-- Signals arrive in the order in which they were sent, and a termination signal marks the context
-- for shutdown for good (daemon.rs).
use mathlib.Core.List.{append_assoc, append-nil}
use duende.Prelude.{
  ℕ, zero, suc, ◌+◌, ◌≤◌, ◌≡◌, ◌↔◌, ◌⊎◌, refl, Bool, true, false, ◌||◌, Option, none, some, List,
  [], ◌∷◌, ◌++◌, length, length-append, arith, ◌∙◌, ap,
}
use duende.Core.Types.{Signal, int, quit, term}
use duende.Core.Error.{ok}
use duende.Core.Config.{DaemonConfig}
use duende.Core.Context.{Mpsc, DaemonContext, is_termination, new, send_signal, try_recv_signal}

abbrev pub any_termination : List Signal → Bool
any_termination [] = false
any_termination (s ∷ ss) = is_termination s || any_termination ss

-- One of the signals is SIGTERM, SIGINT or SIGQUIT.
abbrev pub Terminates : List Signal → Type 0
Terminates [] = ⊥
Terminates (s ∷ ss) = (s ≡ term) ⊎ ((s ≡ int) ⊎ ((s ≡ quit) ⊎ Terminates ss))

is_termination_iff :
    (s : Signal) → (is_termination s ≡ true) ↔ ((s ≡ term) ⊎ ((s ≡ int) ⊎ (s ≡ quit)))
is_termination_iff s = ground arith

any_termination_iff : (ss : List Signal) → (any_termination ss ≡ true) ↔ Terminates ss
any_termination_iff [] = (λ e. absurd (cc), λ n. absurd n)
any_termination_iff (s ∷ ss) = ground (arith, is_termination_iff s, any_termination_iff ss)

or_swap : (a b c : Bool) → (a || (b || c)) ≡ ((b || a) || c)
or_swap a b c = ground arith

or_false : (a : Bool) → (a || false) ≡ a
or_false a = ground arith

abbrev keep :
    {F : Type 0} → Option Signal → List Signal × DaemonContext F → List Signal × DaemonContext F
keep none r = r
keep (some s) (ss, last) = (s ∷ ss, last)

module _ (m : Mpsc) where
  -- The handle sends the signals one after the other; `none` if one waits or is refused.
  pub send_all : List Signal → m.Chan → Option m.Chan
  send_all [] c = some c
  send_all (s ∷ ss) c = elim (send_signal m s c) [ some (ok c') ↦ send_all ss c' | _ ↦ none ]

  pub send_all-contents :
      (ss : List Signal) (c : m.Chan)
      → m.is_closed c ≡ false
      → length (m.contents c) + length ss ≤ m.capacity c
      → (d : m.Chan) × (send_all ss c ≡ some d) × (m.contents d ≡ m.contents c ++ ss)
  unfolding send_all send_signal
  send_all-contents [] c o h = (c, refl, simp append-nil)
  send_all-contents (s ∷ ss) c o h =
      let (c', e, q, k, o') = m.send_room s c o (omega arith) in
      let (d, r, t) =
        send_all-contents ss c' o'
          (omega (arith, ap length q, length-append (m.contents c) (s ∷ []), k)) in
      (d, rw (e, send_all) r, t ∙ ap (λ l. l ++ ss) q ∙ append_assoc (m.contents c) (s ∷ []) ss)

  -- Polls `n` times, and keeps what came.
  pub receive : {F : Type 0} → ℕ → DaemonContext F → m.Chan → List Signal × DaemonContext F
  receive zero ctx c = ([], ctx)
  receive (suc n) ctx c = let (o, ctx', c') = try_recv_signal m ctx c in keep o (receive n ctx' c')

  receive-suc :
      {F : Type 0} (n : ℕ) (ctx ctx' : DaemonContext F) (c c' : m.Chan) (o : Option Signal)
      → try_recv_signal m ctx c ≡ (o, ctx', c')
      → receive (suc n) ctx c ≡ keep o (receive n ctx' c')
  unfolding receive
  receive-suc n ctx ctx' c c' o h =
      ap (λ (r : Option Signal × DaemonContext _ × m.Chan). keep (r.0) (receive n r.1 r.2)) h

  try_recv_signal-item :
      {F : Type 0} (ctx : DaemonContext F) (c c' : m.Chan) (s : Signal)
      → m.try_recv c ≡ some (s, c')
      → try_recv_signal m ctx c
        ≡ (some s, record ctx { shutdown = is_termination s || ctx.shutdown }, c')
  unfolding try_recv_signal
  try_recv_signal-item ctx c c' s e = rw (e, try_recv_signal) refl

  receive-contents :
      {F : Type 0} (ss : List Signal) (ctx : DaemonContext F) (c : m.Chan)
      → m.contents c ≡ ss
      → receive (length ss) ctx c
        ≡ (ss, record ctx { shutdown = any_termination ss || ctx.shutdown })
  receive-contents [] ctx c h = unfold receive in refl
  receive-contents (s ∷ ss) ctx c h =
      let (c', e, q, k, o) = m.try_recv_item c s ss h in
      let ctx' = record ctx { shutdown = is_termination s || ctx.shutdown } in
      receive-suc (length ss) ctx ctx' c c' (some s) (try_recv_signal-item ctx c c' s e)
      ∙ ap (keep (some s)) (receive-contents ss ctx' c' q)
      ∙ simp (or_swap (any_termination ss) (is_termination s) ctx.shutdown)

  -- Up to 16 signals sent to a fresh context are all accepted, and polling as often returns them
  -- in the order sent; afterwards the context is marked for shutdown exactly if one of them was
  -- SIGTERM, SIGINT or SIGQUIT, and its configuration is unchanged.
  pub receive-send_all :
      {F : Type 0} (config : DaemonConfig F) (ss : List Signal)
      → length ss ≤ 16
      → (marked : Bool) × ((marked ≡ true) ↔ Terminates ss)
        × ((d : m.Chan) × (send_all ss (new m config).1 ≡ some d)
            × (receive (length ss) (new m config).0 d
                ≡ (ss, record { shutdown = marked; config = config })))
  unfolding new
  receive-send_all config ss h =
      let (fresh, room, opened) = m.channel_lem 16 in
      let (d, e, q) =
        send_all-contents ss (m.channel 16) opened (omega (arith, ap length fresh, room)) in
      let q' : m.contents d ≡ ss = q ∙ ap (λ l. l ++ ss) fresh in
      (
        any_termination ss,
        any_termination_iff ss,
        (d, e, receive-contents ss (new m config).0 d q' ∙ simp (or_false (any_termination ss))),
      )
