-- ===== src/Core/Manager/Shutdown.antt =====
-- `shutdown_all` reaches every daemon that can be signalled (manager.rs).
use mathlib.Core.Path.{subst}
use duende.Prelude.{
  ℕ, ◌+◌, ◌≤◌, ◌≡◌, refl, ◌∙◌, ap, inl, inr, true, false, some, List, [], ◌∷◌, ◌++◌, ◌==◌, arith,
  length, length-append, Option-cases, Bool-cases, ==_iff,
}
use duende.Core.Types.{DaemonId, Signal, term}
use duende.Core.Error.{DaemonError, Result, ok, err}
use duende.Core.Context.{Mpsc}
use duende.Core.Manager.Delivery.{
  is_key, hits, HasRoom, Gains, Gains-none, HasRoom-weaken, Gains-suc, hits_hit, hits_miss, hits-le,
}
use duende.Core.Manager.Signals.{
  target, signal_no_target, signal-target, deliver_closed, deliver_room,
}
use duende.Core.Manager.{DaemonManager, Channels, put, signal, signal_each, shutdown_all, list}

module _ {F : Type 0} (p : Mpsc) (m : DaemonManager F) (s : Signal) where
  signal_each-step :
      (id : DaemonId) (ids : List DaemonId) (chans chans' : Channels p) (r : Result (Unit {0}))
      → signal p m id s chans ≡ some (r, chans')
      → signal_each p m (id ∷ ids) s chans ≡ signal_each p m ids s chans'
  unfolding signal_each
  signal_each-step id ids chans chans' r h = rw (h, signal_each) refl

  -- What the loop has to show for the daemons `ids`.
  abbrev Reaches : List DaemonId → Channels p → Type 0
  Reaches ids chans =
      (after : Channels p) × (signal_each p m ids s chans ≡ some after)
      × ((k : ℕ) → Gains p (hits m k ids) s (chans k) (after k))

  -- A daemon that is passed over, because it has no channel or its context is gone.
  pass_over :
      (id : DaemonId) (ids : List DaemonId) (chans : Channels p) (e : DaemonError)
      → signal p m id s chans ≡ some (err e, chans)
      → ((k : ℕ) → is_key k (target m id) ≡ true → p.is_closed (chans k) ≡ true)
      → Reaches ids chans
      → Reaches (id ∷ ids) chans
  pass_over id ids chans e q gone (after, r, g) = (
    after,
    signal_each-step id ids chans chans (err e) q ∙ r,
    λ k. elim (Bool-cases (is_key k (target m id))) [
      | inl hit ↦ elim (g k) [
        | inl same ↦ inl same
        | inr (o, _) ↦ absurd (ground (arith, gone k hit))
      ]
      | inr miss ↦ rw (hits_miss m k id ids miss) (g k)
    ],
  )

  -- A daemon whose channel takes the signal.
  pass_on :
      (id k : ℕ) (ids : List DaemonId) (chans : Channels p) (c : p.Chan)
      → target m id ≡ some k
      → signal p m id s chans ≡ some (ok tt, put p k c chans)
      → p.is_closed (chans k) ≡ false
      → p.is_closed c ≡ false
      → p.contents c ≡ p.contents (chans k) ++ (s ∷ [])
      → Reaches ids (put p k c chans)
      → Reaches (id ∷ ids) chans
  pass_on id k ids chans c t q o o' n (after, r, g) = (
    after,
    signal_each-step id ids chans (put p k c chans) (ok tt) q ∙ r,
    λ j. elim (Bool-cases (k == j)) [
      | inl hit ↦
          subst (λ x. Gains p (hits m x (id ∷ ids)) s (chans x) (after x)) ((==_iff k j).0 hit) here
      | inr miss ↦ rw (hits_miss m j id ids (rw t miss)) (rw miss at (g j))
    ],
  )
    where
      self : (k == k) ≡ true
      self = (==_iff k k).1 refl

      here : Gains p (hits m k (id ∷ ids)) s (chans k) (after k)
      here =
          rw (hits_hit m k id ids (rw t self))
            (Gains-suc p (hits m k ids) s (chans k) c (after k) o o' n (rw self at (g k)))

  -- Room for what the channels still have to take.
  abbrev Ready : List DaemonId → Channels p → Type 0
  Ready ids chans = (k : ℕ) → HasRoom p (hits m k ids) (chans k)

  Ready-rest :
      (id : DaemonId) (ids : List DaemonId) (chans : Channels p)
      → Ready (id ∷ ids) chans
      → Ready ids chans
  Ready-rest id ids chans room k =
      HasRoom-weaken p (hits m k ids) (hits m k (id ∷ ids)) (chans k) (hits-le m k id ids) (room k)

  Ready-put :
      (id k : ℕ) (ids : List DaemonId) (chans : Channels p) (c : p.Chan)
      → target m id ≡ some k
      → p.is_closed c ≡ false
      → p.contents c ≡ p.contents (chans k) ++ (s ∷ [])
      → p.capacity c ≡ p.capacity (chans k)
      → length (p.contents (chans k)) + hits m k (id ∷ ids) ≤ p.capacity (chans k)
      → Ready (id ∷ ids) chans
      → Ready ids (put p k c chans)
  Ready-put id k ids chans c t o n w fits room j = elim (Bool-cases (k == j)) [
    | inl hit ↦ subst (λ x. HasRoom p (hits m x ids) (put p k c chans x)) ((==_iff k j).0 hit) here
    | inr miss ↦ rw miss (Ready-rest id ids chans room j)
  ]
    where
      self : (k == k) ≡ true
      self = (==_iff k k).1 refl

      here : HasRoom p (hits m k ids) (put p k c chans k)
      here = rw self (
          inr (
            o,
            omega (
              arith,
              ap length n,
              length-append (p.contents (chans k)) (s ∷ []),
              hits_hit m k id ids (rw t self),
              w,
            ),
          ))

  signal_each-Reaches :
      (ids : List DaemonId) (chans : Channels p) → Ready ids chans → Reaches ids chans
  signal_each-Reaches [] chans room =
      unfold signal_each hits in (chans, refl, λ k. Gains-none p s (chans k))
  signal_each-Reaches (id ∷ ids) chans room = elim (Option-cases (target m id)) [
    | inl t ↦
        let (e, q) = signal_no_target p m id s chans t in
        pass_over id ids chans e q (λ k hit. absurd (ground arith))
          (signal_each-Reaches ids chans (Ready-rest id ids chans room))
    | inr (k, t) ↦ elim (room k) [
      | inl gone ↦
          let (e, q) = deliver_closed p id k s chans gone in
          pass_over id ids chans e (signal-target p m id k s chans t ∙ q) (λ j hit. ground arith)
            (signal_each-Reaches ids chans (Ready-rest id ids chans room))
      | inr (o, fits) ↦
          let more = hits_hit m k id ids (rw t ((==_iff k k).1 refl)) in
          let (c, q, n, w, o') = deliver_room p id k s chans o (omega (arith, more)) in
          pass_on id k ids chans c t (signal-target p m id k s chans t ∙ q) o o' n (
            signal_each-Reaches ids (put p k c chans)
              (Ready-put id k ids chans c t o' n w fits room))
    ]
  ]

module _ {F : Type 0} (p : Mpsc) (m : DaemonManager F) where
  -- If each channel whose context is alive has room for one more signal for each registered daemon
  -- that is signalled through it, then `shutdown_all` returns, with success; each such channel then
  -- ends in one SIGTERM more for each of those daemons, and a channel whose context is gone is
  -- unchanged. A daemon counts if its state can take signals and it has a handle.
  pub shutdown_all-Gains :
      (chans : Channels p)
      → ((k : ℕ) → HasRoom p (hits m k (list m)) (chans k))
      → (after : Channels p) × (shutdown_all p m chans ≡ some (ok tt, after))
        × ((k : ℕ) → Gains p (hits m k (list m)) term (chans k) (after k))
  unfolding shutdown_all
  shutdown_all-Gains chans room =
      let (after, q, g) = signal_each-Reaches p m term (list m) chans room in
      (after, rw (q, shutdown_all) refl, g)
