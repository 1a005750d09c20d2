-- ===== src/Core/Error/Laws.antt =====
-- The classes of errors do not overlap, and a chain of results is taken apart (error.rs).
use duende.Prelude.{◌≡◌, refl, false, ◌&&◌, arith}
use duende.Core.Error.{DaemonError, Result, ok, err, ◌>>=◌, is_recoverable, is_fatal}

-- No error is both recoverable and fatal.
pub recoverable_fatal : (e : DaemonError) → (is_recoverable e && is_fatal e) ≡ false
unfolding is_recoverable is_fatal
recoverable_fatal e = ground arith

-- A chain that succeeds: its first step did, and so did the rest from there.
pub >>=-eq-ok {ℓ κ} :
    {S : Type ℓ} {T : Type κ} (first : Result S) (next : S → Result T) {t : T}
    → (first >>= next) ≡ ok t
    → (s : S) × (first ≡ ok s) × (next s ≡ ok t)
>>=-eq-ok (err failure) next h = cc
>>=-eq-ok (ok value) next h = (value, refl, h)
