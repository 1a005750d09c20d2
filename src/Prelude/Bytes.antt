-- ===== src/Prelude/Bytes.antt =====
-- Numbers as bytes with the least significant first, as the supported targets store them.
use mathlib.Core.Path.{◌≡◌, refl}
use mathlib.Core.List.{List, [], ◌∷◌, ◌++◌}
use Prim.Native.Nat.{ℕ, zero, suc, ◌+◌, ◌*◌, ◌/◌, ◌%◌, ◌^◌, ◌<◌}
use native.Mathlib.Nat.{pow-suc}
use native.Mathlib.Omega.{arith}
use duende.Prelude.Lists.{length, drop}

-- The lowest `n` bytes of a number.
unfoldable pub bytes : ℕ → ℕ → List ℕ
bytes zero x = []
bytes (suc n) x = x % 256 ∷ bytes n (x / 256)

-- The number that the first `n` bytes of a list stand for.
unfoldable pub word : ℕ → List ℕ → ℕ
word zero xs = 0
word (suc n) [] = 0
word (suc n) (x ∷ xs) = x + 256 * word n xs

pub word-bytes : (n x : ℕ) (rest : List ℕ) → x < 256 ^ n → word n (bytes n x ++ rest) ≡ x
unfolding word bytes
word-bytes zero x rest h = omega arith
word-bytes (suc n) x rest h =
    let h' : x / 256 < 256 ^ n = omega (arith, pow-suc 256 n) in
    omega (arith, word-bytes n (x / 256) rest h')

pub length-bytes : (n x : ℕ) → length (bytes n x) ≡ n
unfolding bytes
length-bytes zero x = refl
length-bytes (suc n) x = omega (arith, length-bytes n (x / 256))

pub drop-bytes : (n x : ℕ) (rest : List ℕ) → drop n (bytes n x ++ rest) ≡ rest
unfolding bytes
drop-bytes zero x rest = refl
drop-bytes (suc n) x rest = drop-bytes n (x / 256) rest
