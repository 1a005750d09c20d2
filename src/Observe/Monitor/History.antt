-- ===== src/Observe/Monitor/History.antt =====
-- The history holds the last snapshots, and failures leave it alone (monitor.rs).
use duende.Prelude.{
  append_nil, ℕ, zero, suc, ◌-◌, ◌≤◌, ◌<◌, ◌≡◌, refl, ◌∙◌, ap, sym, List, [], ◌∷◌, ◌++◌, arith,
  length, drop, leb, Bool-cases, inl, inr, if◌then◌else◌, length-append,
}
use mathlib.Core.List.{append_assoc}
use duende.Observe.Proc.{Result, ok, err, panics}
use duende.Observe.Monitor.{
  DaemonSnapshot, DaemonMonitor, Arithmetic, Reading, store, kept, collect, collect_linux, new,
}

abbrev pub last_n {ℓ} : {A : Type ℓ} → ℕ → List A → List A
last_n n xs = drop (length xs - n) xs

-- A buffer keeps one snapshot even if its capacity is 0.
abbrev pub at_least_1 : ℕ → ℕ
at_least_1 n = if leb 1 n then n else 1

drop-append {ℓ} :
    {A : Type ℓ} (n : ℕ) (xs ys : List A) → n ≤ length xs → drop n (xs ++ ys) ≡ drop n xs ++ ys
drop-append zero xs ys h = refl
drop-append (suc n) [] ys h = ground arith
drop-append (suc n) (x ∷ xs) ys h = drop-append n xs ys (omega arith)

drop-drop {ℓ} : {A : Type ℓ} (n : ℕ) (xs : List A) → drop 1 (drop n xs) ≡ drop (suc n) xs
drop-drop zero xs = refl
drop-drop (suc n) [] = refl
drop-drop (suc n) (x ∷ xs) = drop-drop n xs

length-drop {ℓ} : {A : Type ℓ} (n : ℕ) (xs : List A) → length (drop n xs) ≡ length xs - n
length-drop zero xs = omega arith
length-drop (suc n) [] = omega arith
length-drop (suc n) (x ∷ xs) = omega (arith, length-drop n xs)

drop_at {ℓ} : {A : Type ℓ} (i j : ℕ) (xs : List A) → i ≡ j → drop i xs ≡ drop j xs
drop_at i j xs e = ap (λ (n : ℕ). drop n xs) e

last_n-length {ℓ} : {A : Type ℓ} (n : ℕ) (xs : List A) → length xs ≤ n → last_n n xs ≡ xs
last_n-length n xs h = drop_at (length xs - n) 0 xs (omega arith)

-- One more element, where the last n are all or not.
last_n-short {ℓ} :
    {A : Type ℓ} (n : ℕ) (xs : List A) (x : A)
    → length xs < n
    → last_n n (xs ++ (x ∷ [])) ≡ last_n n xs ++ (x ∷ [])
last_n-short n xs x h =
    last_n-length n (xs ++ (x ∷ [])) (omega (arith, length-append xs (x ∷ [])))
    ∙ ap (λ (t : List _). t ++ (x ∷ [])) (sym (last_n-length n xs (omega arith)))

last_n-full {ℓ} :
    {A : Type ℓ} (n : ℕ) (xs : List A) (x : A)
    → 1 ≤ n
    → n ≤ length xs
    → last_n n (xs ++ (x ∷ [])) ≡ drop 1 (last_n n xs) ++ (x ∷ [])
last_n-full n xs x a b =
    drop_at (length (xs ++ (x ∷ [])) - n) (suc (length xs - n)) (xs ++ (x ∷ []))
      (omega (arith, length-append xs (x ∷ [])))
    ∙ drop-append (suc (length xs - n)) xs (x ∷ []) (omega arith)
    ∙ ap (λ (t : List _). t ++ (x ∷ [])) (sym (drop-drop (length xs - n) xs))

store-last_n :
    {F : Type 0} (capacity : ℕ) (s : DaemonSnapshot F) (xs : List (DaemonSnapshot F))
    → store capacity s (last_n (at_least_1 capacity) xs)
      ≡ last_n (at_least_1 capacity) (xs ++ (s ∷ []))
unfolding store
store-last_n capacity s [] = ground arith
store-last_n capacity s (x ∷ xs) =
    let n = at_least_1 capacity in
    let ys = x ∷ xs in
    elim (Bool-cases (leb capacity (length (last_n n ys)))) [
      | inl e ↦
          rw e (
            sym
              (last_n-full n ys s (ground arith) (ground (arith, length-drop (length ys - n) ys))))
      | inr e ↦ rw e (sym (last_n-short n ys s (ground (arith, length-drop (length ys - n) ys))))
    ]

-- The snapshots that a run of readings takes.
module _ (a : Arithmetic) where
  unfoldable pub collect_all : List (Reading a) → DaemonMonitor a.Carrier → DaemonMonitor a.Carrier
  collect_all [] m = m
  collect_all (r ∷ rs) m = collect_all rs (collect a r m).1

  abbrev pub with_result {ℓ} : {T : Type ℓ} → Result T → List T → List T
  with_result (ok s) rest = s ∷ rest
  with_result _ rest = rest

  unfoldable pub taken :
      List (Reading a) → DaemonMonitor a.Carrier → List (DaemonSnapshot a.Carrier)
  taken [] m = []
  taken (r ∷ rs) m = with_result (collect a r m).0 (taken rs (collect a r m).1)

  collect_linux_frame :
      (r : Reading a) (m : DaemonMonitor a.Carrier)
      → ((collect_linux a r m).1.history ≡ m.history)
        × ((collect_linux a r m).1.capacity ≡ m.capacity)
  unfolding collect_linux
  collect_linux_frame r m = ground arith

  -- A monitor of capacity c that holds the last of the snapshots xs.
  record Holds (c : ℕ) (xs : List (DaemonSnapshot a.Carrier)) (m : DaemonMonitor a.Carrier)
      : Type 0 where
    capacity_is : m.capacity ≡ c
    history_is : m.history ≡ last_n (at_least_1 c) xs

  kept-Holds :
      (c : ℕ) (xs : List (DaemonSnapshot a.Carrier))
      (y : Result (DaemonSnapshot a.Carrier) × DaemonMonitor a.Carrier)
      → Holds c xs y.1
      → Holds c (xs ++ with_result (kept y).0 []) (kept y).1
  kept-Holds c xs (err e, m) v = rw (append_nil xs) v
  kept-Holds c xs (panics, m) v = rw (append_nil xs) v
  kept-Holds c xs (ok s, m) v = record {
    capacity_is = v.capacity_is;
    history_is = rw (v.capacity_is, v.history_is) (store-last_n c s xs);
  }

  collect-Holds :
      (c : ℕ) (xs : List (DaemonSnapshot a.Carrier)) (r : Reading a) (m : DaemonMonitor a.Carrier)
      → Holds c xs m
      → Holds c (xs ++ with_result (collect a r m).0 []) (collect a r m).1
  unfolding collect
  collect-Holds c xs r m v =
      let (h, k) = collect_linux_frame r m in
      kept-Holds c xs (collect_linux a r m)
        (record { capacity_is = k ∙ v.capacity_is; history_is = h ∙ v.history_is })

  with_result-append :
      {T : Type 0} (res : Result T) (rest : List T)
      → with_result res [] ++ rest ≡ with_result res rest
  with_result-append (ok s) rest = refl
  with_result-append (err e) rest = refl
  with_result-append panics rest = refl

  collect_all-Holds :
      (c : ℕ) (xs : List (DaemonSnapshot a.Carrier)) (rs : List (Reading a))
      (m : DaemonMonitor a.Carrier)
      → Holds c xs m
      → Holds c (xs ++ taken rs m) (collect_all rs m)
  unfolding collect_all taken
  collect_all-Holds c xs [] m v = rw (append_nil xs) v
  collect_all-Holds c xs (r ∷ rs) m v =
      let found = with_result (collect a r m).0 [] in
      let rest = taken rs (collect a r m).1 in
      let e =
        append_assoc xs found rest
        ∙ ap (λ (t : List _). xs ++ t) (with_result-append (collect a r m).0 rest) in
      rw (← e) (collect_all-Holds c (xs ++ found) rs (collect a r m).1 (collect-Holds c xs r m v))

  -- After any readings, failed ones included, a new monitor holds the last of the snapshots that were
  -- taken, in their order: as many as its capacity, or one if the capacity is 0.
  pub history-collect_all :
      (rs : List (Reading a)) (page_size total_memory capacity : ℕ)
      → (collect_all rs (new page_size total_memory capacity)).history
        ≡ last_n (at_least_1 capacity) (taken rs (new page_size total_memory capacity))
  unfolding new
  history-collect_all rs page_size total_memory capacity =
      (collect_all-Holds capacity [] rs (new page_size total_memory capacity)
        (record { capacity_is = refl; history_is = ground arith })).history_is
