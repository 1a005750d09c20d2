-- ===== src/Core/Examples.antt =====
-- The theorems of the core at concrete inputs: the channel is a bounded list, floats are
-- fixed-point seconds, and one daemon runs (manager.rs, daemon.rs, config.rs).
use Prim.Native.Char.{Char, code}
use duende.Prelude.{
  ℕ, ◌≤◌, ◌≡◌, ◌↔◌, refl, inl, inr, Bool, true, false, ◌&&◌, some, List, [], ◌∷◌, arith, leb,
}
use duende.Prelude.Float.{whole}
use duende.Prelude.Map.{lookup, keys}
use duende.Core.Types.{running, term, hup, can_signal}
use duende.Core.Error.{ok}
use duende.Core.Config.{DaemonConfig, validate, load}
use duende.Core.Config
use duende.Core.Config.Validity.{IsValid, validate_iff}
use duende.Core.Context
use duende.Core.Context.Queue.{bounded}
use duende.Core.Context.Laws.{Terminates, send_all, receive, receive-send_all}
use duende.Core.Restart.{max_retries, default_backoff, delay_for}
use duende.Core.Restart.Backoff.{delay_for-le-max}
use duende.Core.Restart.Fixed.{fixed, fixed_f64, fixed-laws}
use duende.Core.Manager
use duende.Core.Manager.{
  DaemonManager, ManagedDaemon, get_restart_count, status, list, signal, shutdown_all,
}
use duende.Core.Manager.Kept.{Kept}
use duende.Core.Manager.Registry.{Request, registers, unregisters, sets_status, sets_handle}
use duende.Core.Manager.Restarts.{restarts, restarts-register}
use duende.Core.Manager.Signals.{Signals, signal_lem}
use duende.Core.Manager.Delivery.{hits, Gains}
use duende.Core.Manager.Shutdown.{shutdown_all-Gains}

-- Lower-case ASCII letters.
abbrev is_letter : Char → Bool
is_letter c = leb 97 (code c) && leb (code c) 122

abbrev sample : DaemonConfig whole.Carrier
unfolding Config.new Config.default_resources
sample = Config.new whole "web" "/bin/web"

sample-IsValid : IsValid whole is_letter sample
unfolding Config.new Config.default_resources
sample-IsValid = record {
  named = λ e. absurd (cc);
  name_chars = (inl refl, (inl refl, (inl refl, tt)));
  has_binary = λ e. absurd (cc);
  has_memory = omega arith;
  quota_above = refl;
  has_pids = omega arith;
}

validate_iff_example : (validate whole is_letter sample ≡ ok tt) ↔ IsValid whole is_letter sample
validate_iff_example = validate_iff whole is_letter sample

receive-send_all_example :
    (marked : Bool) × ((marked ≡ true) ↔ Terminates (hup ∷ term ∷ []))
    × ((d : bounded.Chan) × (send_all bounded (hup ∷ term ∷ []) (Context.new bounded sample).1
          ≡ some d)
        × (receive bounded 2 (Context.new bounded sample).0 d
            ≡ (hup ∷ term ∷ [], record { shutdown = marked; config = sample })))
receive-send_all_example = receive-send_all bounded sample (hup ∷ term ∷ []) (omega arith)

delay_for-le-max_example :
    (e : ℕ) × (delay_for fixed (default_backoff fixed_f64) 20 ≡ some e) × (e ≤ 300000000000)
unfolding default_backoff
delay_for-le-max_example =
    delay_for-le-max fixed fixed-laws (default_backoff fixed_f64) 20 (omega arith) (inl refl)

abbrev requests : List (Request whole.Carrier)
requests =
    registers 7 "web" sample (max_retries 3)
    ∷ sets_status 7 running
    ∷ sets_handle 5 7 0
    ∷ unregisters 7
    ∷ []

abbrev empty : DaemonManager whole.Carrier
unfolding Manager.new
empty = Manager.new

abbrev known : DaemonManager whole.Carrier
known = record {
  daemons = (7, Manager.new_daemon 7 "web" sample) ∷ [];
  health_check_interval = 0;
  shutdown_timeout = 0;
}

restarts-register_example :
    get_restart_count 7 (restarts 2 7 (Manager.register 7 "web" sample (max_retries 3) empty).1)
    ≡ ok 2
unfolding Manager.new lookup
restarts-register_example =
    (restarts-register 7 "web" sample (max_retries 3) empty 2 refl (omega arith)).0

abbrev web : ManagedDaemon whole.Carrier
web = record (Manager.new_daemon 7 "web" sample) { status = running; context_handle = some 0 }

abbrev serving : DaemonManager whole.Carrier
serving = record { daemons = (7, web) ∷ []; health_check_interval = 0; shutdown_timeout = 0 }

abbrev idle : ℕ → bounded.Chan
idle k = record { items = []; bound = 16; closed = false }

signal_lem_example : Signals bounded (some 0) term idle (signal bounded serving 7 term idle)
unfolding lookup can_signal
signal_lem_example = signal_lem bounded serving 7 term idle

serving-hits : (k : ℕ) → hits serving k (list serving) ≤ 1
unfolding hits list keys lookup can_signal
serving-hits k = ground arith

shutdown_all-Gains_example :
    (after : Manager.Channels bounded) × (shutdown_all bounded serving idle ≡ some (ok tt, after))
    × ((k : ℕ) → Gains bounded (hits serving k (list serving)) term (idle k) (after k))
shutdown_all-Gains_example =
    shutdown_all-Gains bounded serving idle (λ k. inr (refl, omega (arith, serving-hits k)))
