-- ===== src/Core/Manager/Signals.antt =====
-- When a signal reaches a daemon, and what happens otherwise (manager.rs).
use duende.Prelude.{
  ℕ, ◌<◌, ◌≤◌, ◌≡◌, refl, ◌∙◌, ap, inl, inr, true, false, Option, none, some, [], ◌∷◌, ◌++◌,
  if◌then◌else◌, arith, length, Option-cases, Bool-cases, ltb, ltb→lt, ◌⊎◌,
}
use duende.Prelude.Map.{lookup}
use duende.Core.Types.{DaemonId, Signal, can_signal}
use duende.Core.Error.{Result, DaemonError, ok, err, text, about, about_status, not_found, state}
use duende.Core.Context.{Mpsc, send_signal}
use duende.Core.Manager.Access.{get-found, get-missing}
use duende.Core.Manager.{ManagedDaemon, DaemonManager, Channels, put, deliver, signal}

-- The channel key of a daemon that can be signalled, if it is registered and has a handle.
abbrev pub handle_of : {F : Type 0} → Option (ManagedDaemon F) → Option ℕ
handle_of none = none
handle_of (some d) = if can_signal d.status then d.context_handle else none

abbrev pub target : {F : Type 0} → DaemonManager F → DaemonId → Option ℕ
target m id = handle_of (lookup id m.daemons)

module _ (p : Mpsc) where
  -- An error, and no channel changes.
  abbrev pub Refused : Channels p → Option (Result (Unit {0}) × Channels p) → Type 0
  Refused chans r = (e : DaemonError) × (r ≡ some (err e, chans))

  -- What a signal comes to: without a target it is refused. With one it is refused if the context is
  -- gone, waits if the channel is full, and else is the last of that channel alone.
  abbrev pub Signals :
      Option ℕ → Signal → Channels p → Option (Result (Unit {0}) × Channels p) → Type 0
  Signals none s chans r = Refused chans r
  Signals (some k) s chans r =
      ((p.is_closed (chans k) ≡ true) × Refused chans r)
      ⊎ ((p.is_closed (chans k) ≡ false)
          × (p.capacity (chans k) ≤ length (p.contents (chans k)))
          × (r ≡ none))
      ⊎ ((p.is_closed (chans k) ≡ false)
          × (length (p.contents (chans k)) < p.capacity (chans k))
          × (c : p.Chan) × (r ≡ some (ok tt, put p k c chans))
          × (p.contents c ≡ p.contents (chans k) ++ (s ∷ [])))

  pub deliver_closed :
      (id k : ℕ) (s : Signal) (chans : Channels p)
      → p.is_closed (chans k) ≡ true
      → (e : DaemonError) × (deliver p id (some k) s chans ≡ some (err e, chans))
  unfolding send_signal
  deliver_closed id k s chans c = (
    DaemonError.signal (text "daemon context closed"),
    rw (p.send_closed s (chans k) c, deliver) refl,
  )

  pub deliver_full :
      (id k : ℕ) (s : Signal) (chans : Channels p)
      → p.is_closed (chans k) ≡ false
      → p.capacity (chans k) ≤ length (p.contents (chans k))
      → deliver p id (some k) s chans ≡ none
  unfolding send_signal
  deliver_full id k s chans o f = rw (p.send_full s (chans k) o f, deliver) refl

  pub deliver_room :
      (id k : ℕ) (s : Signal) (chans : Channels p)
      → p.is_closed (chans k) ≡ false
      → length (p.contents (chans k)) < p.capacity (chans k)
      → (c : p.Chan) × (deliver p id (some k) s chans ≡ some (ok tt, put p k c chans))
        × (p.contents c ≡ p.contents (chans k) ++ (s ∷ []))
        × (p.capacity c ≡ p.capacity (chans k))
        × (p.is_closed c ≡ false)
  unfolding send_signal
  deliver_room id k s chans o r =
      let (c, e, q, n, o') = p.send_room s (chans k) o r in (c, rw (e, deliver) refl, q, n, o')

module _ {F : Type 0} (p : Mpsc) where
  signal_found :
      (m : DaemonManager F) (id : DaemonId) (s : Signal) (chans : Channels p) (d : ManagedDaemon F)
      → lookup id m.daemons ≡ some d
      → can_signal d.status ≡ true
      → signal p m id s chans ≡ deliver p id d.context_handle s chans
  unfolding signal
  signal_found m id s chans d h c = rw (get-found id d m h) (rw c refl)

  -- No target: an error, and no channel changes.
  pub signal_no_target :
      (m : DaemonManager F) (id : DaemonId) (s : Signal) (chans : Channels p)
      → target m id ≡ none
      → (e : DaemonError) × (signal p m id s chans ≡ some (err e, chans))
  unfolding signal
  signal_no_target m id s chans t = elim (Option-cases (lookup id m.daemons)) [
    | inl e ↦ (not_found (about "{}" id), rw (get-missing id m e) refl)
    | inr (d, e) ↦ elim (Bool-cases (can_signal d.status)) [
      | inl c ↦
          let no_handle : d.context_handle ≡ none = ground arith in
          (
            state (about "daemon {} has no context handle" id),
            rw (get-found id d m e) (rw c (rw no_handle refl)),
          )
      | inr c ↦ (
        state (about_status "daemon {} cannot receive signals in state {:?}" id d.status),
        rw (get-found id d m e) (rw c refl),
      )
    ]
  ]

  pub signal-target :
      (m : DaemonManager F) (id k : ℕ) (s : Signal) (chans : Channels p)
      → target m id ≡ some k
      → signal p m id s chans ≡ deliver p id (some k) s chans
  signal-target m id k s chans t = elim (Option-cases (lookup id m.daemons)) [
    | inl e ↦ ground arith
    | inr (d, e) ↦ elim (Bool-cases (can_signal d.status)) [
      | inl c ↦
          let handle : d.context_handle ≡ some k = ground arith in
          signal_found m id s chans d e c ∙ ap (λ h. deliver p id h s chans) handle
      | inr c ↦ ground arith
    ]
  ]

  Signals-target :
      (m : DaemonManager F) (id k : ℕ) (s : Signal) (chans : Channels p)
      → target m id ≡ some k
      → Signals p (some k) s chans (signal p m id s chans)
  Signals-target m id k s chans t = elim (Bool-cases (p.is_closed (chans k))) [
    | inl c ↦ inl (c, rw (signal-target m id k s chans t) (deliver_closed p id k s chans c))
    | inr o ↦ elim (Bool-cases (ltb (length (p.contents (chans k))) (p.capacity (chans k)))) [
      | inl l ↦
          let room = ltb→lt _ _ l in
          let (c, e, q, _, _) = deliver_room p id k s chans o room in
          inr (inr (o, room, c, signal-target m id k s chans t ∙ e, q))
      | inr l ↦
          let full : p.capacity (chans k) ≤ length (p.contents (chans k)) = ground arith in
          inr (inl (o, full, signal-target m id k s chans t ∙ deliver_full p id k s chans o full))
    ]
  ]

  -- Signalling a registered daemon that can take signals and has a handle: if the context is gone,
  -- an error and no channel changes; if the channel is full, the call waits; if there is room, the
  -- call succeeds, the signal is the last of that channel and no other channel changes. In every
  -- other case the call is an error and no channel changes.
  pub signal_lem :
      (m : DaemonManager F) (id : DaemonId) (s : Signal) (chans : Channels p)
      → Signals p (target m id) s chans (signal p m id s chans)
  signal_lem m id s chans = elim (Option-cases (target m id)) [
    | inl t ↦ rw t (signal_no_target m id s chans t)
    | inr (k, t) ↦ rw t (Signals-target m id k s chans t)
  ]
