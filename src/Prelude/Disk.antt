-- ===== src/Prelude/Disk.antt =====
-- `std::fs` on a state of the program's world: an interface of its documented behaviour. Paths and
-- texts are lists of codes, an error is its code.
use Prim.Native.Nat.{ℕ}
use mathlib.Core.Path.{◌≡◌, refl}
use mathlib.Core.Bool.{Bool, true}
use mathlib.Core.Option.{Option, none, some}
use mathlib.Core.List.{List, [], ◌∷◌, ◌++◌}

pub record Disk : Type 1 where
  pub State : Type 0
  pub written : State → List (List ℕ × List ℕ)  -- the writes that succeeded, in order
  pub exists : List ℕ → State → Bool
  pub read_to_string : List ℕ → State → Option (List ℕ)
  pub write : List ℕ → List ℕ → State → Option ℕ × State
  pub create_dir_all : List ℕ → State → Option ℕ × State
  pub remove_dir : List ℕ → State → Option ℕ × State
  pub write_done :
      (path text : List ℕ) (s : State)
      → (write path text s).0 ≡ none
      → written (write path text s).1 ≡ written s ++ ((path, text) ∷ [])
  pub write_failed :
      (path text : List ℕ) (s : State) (code : ℕ)
      → (write path text s).0 ≡ some code
      → written (write path text s).1 ≡ written s
  pub create_keeps : (path : List ℕ) (s : State) → written (create_dir_all path s).1 ≡ written s
  pub remove_keeps : (path : List ℕ) (s : State) → written (remove_dir path s).1 ≡ written s

pub never_failed : {A : Type 0} {code : ℕ} → ◌≡◌ {A = Option ℕ} none (some code) → A
never_failed e = absurd (cc)

-- A disk that has every file, each with one content, takes every write and keeps the list of them.
abbrev pub log_disk : List ℕ → Disk
log_disk content = record {
  State = List (List ℕ × List ℕ);
  written = λ s. s;
  exists = λ path s. true;
  read_to_string = λ path s. some content;
  write = λ path text s. (none, s ++ ((path, text) ∷ []));
  create_dir_all = λ path s. (none, s);
  remove_dir = λ path s. (none, s);
  write_done = λ path text s _. refl;
  write_failed = λ path text s code e. never_failed e;
  create_keeps = λ path s. refl;
  remove_keeps = λ path s. refl;
}
