-- ===== src/Core/Context.antt =====
-- crates/duende-core/src/daemon.rs: the runtime context of a daemon and the handle that signals it.
-- The channel between them is tokio's bounded `mpsc`: an interface with its documented behaviour.
pub mod Laws
pub mod Queue
use duende.Prelude.{
  ℕ, ◌<◌, ◌≤◌, ◌≡◌, Bool, true, false, Option, none, some, List, [], ◌∷◌, ◌++◌, ◌||◌, length,
}
use duende.Core.Types.{Signal, int, quit, term}
use duende.Core.Error
use duende.Core.Error.{DaemonError, text}
use duende.Core.Config.{DaemonConfig}

-- What `Sender::send` comes to: the value is queued, the receiver is gone, or the call waits for
-- room.
pub data Sending (C : Type 0) : Type 0 where
  sent : C → Sending C
  refused : Sending C
  waits : Sending C

pub record Mpsc : Type 1 where
  pub Chan : Type 0
  pub channel : ℕ → Chan
  pub contents : Chan → List Signal
  pub capacity : Chan → ℕ
  pub is_closed : Chan → Bool
  pub send : Signal → Chan → Sending Chan
  pub try_recv : Chan → Option (Signal × Chan)
  pub channel_lem :
      (n : ℕ)
      → (contents (channel n) ≡ []) × (capacity (channel n) ≡ n) × (is_closed (channel n) ≡ false)
  pub send_closed : (s : Signal) (c : Chan) → is_closed c ≡ true → send s c ≡ refused
  pub send_full :
      (s : Signal) (c : Chan)
      → is_closed c ≡ false
      → capacity c ≤ length (contents c)
      → send s c ≡ waits
  pub send_room :
      (s : Signal) (c : Chan)
      → is_closed c ≡ false
      → length (contents c) < capacity c
      → (c' : Chan) × (send s c ≡ sent c')
        × (contents c' ≡ contents c ++ (s ∷ []))
        × (capacity c' ≡ capacity c)
        × (is_closed c' ≡ false)
  pub try_recv_empty : (c : Chan) → contents c ≡ [] → try_recv c ≡ none
  pub try_recv_item :
      (c : Chan) (s : Signal) (rest : List Signal)
      → contents c ≡ s ∷ rest
      → (c' : Chan) × (try_recv c ≡ some (s, c'))
        × (contents c' ≡ rest)
        × (capacity c' ≡ capacity c)
        × (is_closed c' ≡ is_closed c)

-- The receiving end is in the context, the sending end in the handle; the channel that they share
-- is passed to their methods.
pub record DaemonContext (F : Type 0) : Type 0 where
  pub shutdown : Bool
  pub config : DaemonConfig F

abbrev pub is_termination : Signal → Bool
is_termination term = true
is_termination int = true
is_termination quit = true
is_termination _ = false

module _ (m : Mpsc) where
  unfoldable pub new : {F : Type 0} → DaemonConfig F → DaemonContext F × m.Chan
  new config = (record { shutdown = false; config = config }, m.channel 16)

  unfoldable pub try_recv_signal :
      {F : Type 0} → DaemonContext F → m.Chan → Option Signal × DaemonContext F × m.Chan
  try_recv_signal ctx c = elim (m.try_recv c) [
    | some (signal, c') ↦
        (some signal, record ctx { shutdown = is_termination signal || ctx.shutdown }, c')
    | none ↦ (none, ctx, c)
  ]

  -- What `send_signal` comes to once the channel answers; `none` while it waits for room.
  unfoldable pub send_signal : Signal → m.Chan → Option (Error.Result m.Chan)
  send_signal s c = elim (m.send s c) [
    | sent c' ↦ some (Error.ok c')
    | refused ↦ some (Error.err (DaemonError.signal (text "daemon context closed")))
    | waits ↦ none
  ]

  -- The handle's `shutdown`.
  unfoldable pub request_stop : m.Chan → Option (Error.Result m.Chan)
  unfolding send_signal
  request_stop c = send_signal term c

-- `request_shutdown` of the context.
unfoldable pub request_shutdown : {F : Type 0} → DaemonContext F → DaemonContext F
request_shutdown ctx = record ctx { shutdown = true }

abbrev pub should_shutdown : {F : Type 0} → DaemonContext F → Bool
should_shutdown ctx = ctx.shutdown
