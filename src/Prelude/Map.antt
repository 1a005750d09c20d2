-- ===== src/Prelude/Map.antt =====
-- `HashMap` as an association list; the order of the entries stands for the map's arbitrary one.
use Prim.Native.Nat.{ℕ, ◌+◌}
use mathlib.Core.Path.{◌≡◌, refl}
use mathlib.Core.Option.{Option, none, some}
use mathlib.Core.List.{List, [], ◌∷◌}
use native.Mathlib.Omega.{arith}
use duende.Prelude.Tests.{◌==◌, if◌then◌else◌}
use duende.Prelude.Lists.{length}

module _ {ℓ} {V : Type ℓ} where
  unfoldable pub insert : ℕ → V → List (ℕ × V) → List (ℕ × V)
  insert key value [] = (key, value) ∷ []
  insert key value ((at, old) ∷ rest) =
      if at == key then (key, value) ∷ rest else (at, old) ∷ insert key value rest

  unfoldable pub remove : ℕ → List (ℕ × V) → List (ℕ × V)
  remove key [] = []
  remove key ((at, old) ∷ rest) =
      let others = remove key rest in if at == key then others else (at, old) ∷ others

  unfoldable pub lookup : ℕ → List (ℕ × V) → Option V
  lookup key [] = none
  lookup key ((at, value) ∷ rest) = if at == key then some value else lookup key rest

  unfoldable pub keys : List (ℕ × V) → List ℕ
  keys [] = []
  keys ((at, value) ∷ rest) = at ∷ keys rest

  pub lookup-remove :
      (key at : ℕ) (m : List (ℕ × V))
      → lookup at (remove key m) ≡ (if key == at then none else lookup at m)
  unfolding lookup remove
  lookup-remove key at [] = ground arith
  lookup-remove key at ((i, old) ∷ rest) = ground (arith, lookup-remove key at rest)

  pub lookup-insert :
      (key at : ℕ) (value : V) (m : List (ℕ × V))
      → lookup at (insert key value m) ≡ (if key == at then some value else lookup at m)
  unfolding insert lookup
  lookup-insert key at value [] = refl
  lookup-insert key at value ((i, old) ∷ rest) = ground (arith, lookup-insert key at value rest)

  -- A key that is absent adds an entry, a key that is there replaces one.
  pub length-insert_new :
      (k : ℕ) (v : V) (m : List (ℕ × V)) → lookup k m ≡ none → length (insert k v m) ≡ length m + 1
  unfolding lookup insert
  length-insert_new k v [] h = refl
  length-insert_new k v ((i, w) ∷ m) h = ground (arith, length-insert_new k v m)

  pub length-insert_old :
      (k : ℕ) (v w : V) (m : List (ℕ × V)) → lookup k m ≡ some w → length (insert k v m) ≡ length m
  unfolding lookup insert
  length-insert_old k v w [] h = ground arith
  length-insert_old k v w ((i, u) ∷ m) h = ground (arith, length-insert_old k v w m)
