-- ===== src/Core/Manager/Delivery.antt =====
-- What a round of signals does to the channels: how many signals go through each (manager.rs).
use mathlib.Core.List.{append_assoc, append-nil}
use duende.Prelude.{
  ℕ, zero, suc, ◌+◌, ◌≤◌, ◌≡◌, ◌⊎◌, refl, ◌∙◌, ap, inl, inr, Bool, true, false, Option, none, some,
  List, [], ◌∷◌, ◌++◌, ◌==◌, if◌then◌else◌, arith, length, Bool-cases,
}
use duende.Core.Types.{DaemonId, Signal}
use duende.Core.Context.{Mpsc}
use duende.Core.Manager.Signals.{target}
use duende.Core.Manager.{DaemonManager}

abbrev pub is_key : ℕ → Option ℕ → Bool
is_key k none = false
is_key k (some j) = j == k

-- How many of the daemons are signalled through the channel of key `k`.
unfoldable pub hits : {F : Type 0} → DaemonManager F → ℕ → List DaemonId → ℕ
hits m k [] = 0
hits m k (id ∷ ids) = let rest = hits m k ids in if is_key k (target m id) then suc rest else rest

abbrev pub replicate : ℕ → Signal → List Signal
replicate zero s = []
replicate (suc n) s = s ∷ replicate n s

module _ (p : Mpsc) where
  -- The context is gone, or `n` more signals fit into its channel.
  abbrev pub HasRoom : ℕ → p.Chan → Type 0
  HasRoom n c =
      (p.is_closed c ≡ true)
      ⊎ ((p.is_closed c ≡ false) × (length (p.contents c) + n ≤ p.capacity c))

  -- A channel whose context is gone is unchanged, any other has `n` signals more at its end.
  abbrev pub Gains : ℕ → Signal → p.Chan → p.Chan → Type 0
  Gains n s c c' =
      ((p.is_closed c ≡ true) × (c' ≡ c))
      ⊎ ((p.is_closed c ≡ false) × (p.contents c' ≡ p.contents c ++ replicate n s))

  pub Gains-none : (s : Signal) (c : p.Chan) → Gains 0 s c c
  Gains-none s c = elim (Bool-cases (p.is_closed c)) [
    | inl e ↦ inl (e, refl)
    | inr e ↦ inr (e, simp append-nil)
  ]

  pub HasRoom-weaken : (n k : ℕ) (c : p.Chan) → n ≤ k → HasRoom k c → HasRoom n c
  HasRoom-weaken n k c h (inl e) = inl e
  HasRoom-weaken n k c h (inr (o, r)) = inr (o, omega arith)

  pub Gains-suc :
      (n : ℕ) (s : Signal) (c c' last : p.Chan)
      → p.is_closed c ≡ false
      → p.is_closed c' ≡ false
      → p.contents c' ≡ p.contents c ++ (s ∷ [])
      → Gains n s c' last
      → Gains (suc n) s c last
  Gains-suc n s c c' last o o' q (inl (e, _)) = cc
  Gains-suc n s c c' last o o' q (inr (_, r)) =
      inr (
        o,
        r ∙ ap (λ l. l ++ replicate n s) q ∙ append_assoc (p.contents c) (s ∷ []) (replicate n s),
      )

module _ {F : Type 0} (m : DaemonManager F) where
  pub hits_hit :
      (k : ℕ) (id : DaemonId) (ids : List DaemonId)
      → is_key k (target m id) ≡ true
      → hits m k (id ∷ ids) ≡ suc (hits m k ids)
  unfolding hits
  hits_hit k id ids h = rw h refl

  pub hits_miss :
      (k : ℕ) (id : DaemonId) (ids : List DaemonId)
      → is_key k (target m id) ≡ false
      → hits m k (id ∷ ids) ≡ hits m k ids
  unfolding hits
  hits_miss k id ids h = rw h refl

  pub hits-le : (k : ℕ) (id : DaemonId) (ids : List DaemonId) → hits m k ids ≤ hits m k (id ∷ ids)
  unfolding hits
  hits-le k id ids = ground arith
