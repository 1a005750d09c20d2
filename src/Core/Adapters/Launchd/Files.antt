-- ===== src/Core/Adapters/Launchd/Files.antt =====
-- What becomes of the property list when a service is started (core's adapters/launchd.rs).
use duende.Prelude.{
  ℕ, zero, suc, ◌≡◌, ◌≢◌, refl, ap, ◌∙◌, ◌⊎◌, inl, inr, true, false, Option, none, some, List, [],
  ◌∷◌, Bool-cases, Option-cases,
}
use duende.Prelude.Text.{chars}
use duende.Core.Types.{DaemonId}
use duende.Core.Adapter.{
  Message, PlatformResult, err, ok, spawn_failed, DaemonHandle, launchd_handle,
}
use duende.Core.Adapters.Tool.{Call, not_run, finished, success}
use duende.Core.Adapters.Launchd.{LaunchdAdapter, target, service_label, plist_path, generate_plist}
use duende.Core.Adapters.Launchd.Operations.{
  Host, bootstrap_args, bootstrapped, bootstrap, write_plist, spawn,
}

-- A host whose files behave as files: `content` is what stands at a path. A write that gives no error
-- leaves the text there, a removal that gives none leaves nothing, and `launchctl bootstrap` leaves the
-- property list that it is given as it is.
pub record Files (w : Host) : Type 0 where
  pub content : List ℕ → w.tool.State → Option (List ℕ)
  pub written :
      (path body : List ℕ) (s : w.tool.State)
      → (w.write path body s).0 ≡ none
      → content path (w.write path body s).1 ≡ some body
  pub removed :
      (path : List ℕ) (s : w.tool.State)
      → (w.remove_file path s).0 ≡ none
      → content path (w.remove_file path s).1 ≡ none
  pub untouched :
      (domain path : List ℕ) (s : w.tool.State)
      → content path (w.tool.run (chars "launchctl" ∷ chars "bootstrap" ∷ domain ∷ path ∷ []) s).1
        ≡ content path s

abbrev pub IsSpawnError : {A : Type 0} → PlatformResult A → Type 0
IsSpawnError r = (m : Message) × (r ≡ err (spawn_failed m))

success-zero : (code : Option ℕ) → success code ≡ true → code ≡ some 0
success-zero none e = absurd (cc)
success-zero (some zero) e = refl
success-zero (some (suc n)) e = absurd (cc)

not-success : (code : Option ℕ) → success code ≡ false → code ≢ some 0
not-success code e p = let zero_code : success code ≡ true = ap success p in absurd (cc)

module _ (w : Host) (files : Files w) where
  abbrev pub plist : List ℕ → List ℕ
  plist daemon_name = generate_plist (service_label daemon_name) daemon_name (chars "/usr/bin/true")

  -- Of a refused service.
  abbrev pub Cleaned : List ℕ → w.tool.State → w.tool.State → Type 0
  Cleaned path ran after =
      ((code : ℕ) × ((w.remove_file path ran).0 ≡ some code)) ⊎ (files.content path after ≡ none)

  abbrev pub Answered :
      List ℕ
      → List ℕ
      → DaemonHandle
      → Call × w.tool.State
      → PlatformResult DaemonHandle × w.tool.State
      → Type 0
  Answered path body h ran o =
      ((out : List ℕ) × (error : List ℕ) × (ran.0 ≡ finished (some 0) out error)
        × (o.0 ≡ ok h)
        × (files.content path o.1 ≡ some body))
      ⊎ (((code : ℕ) × (ran.0 ≡ not_run code)
            × IsSpawnError o.0
            × (files.content path o.1 ≡ some body))
          ⊎ ((code : Option ℕ) × (out : List ℕ) × (error : List ℕ) × (ran.0
                ≡ finished code out error)
              × (code ≢ some 0)
              × IsSpawnError o.0
              × Cleaned path ran.1 o.1))

  abbrev pub Put :
      List ℕ
      → List ℕ
      → DaemonHandle
      → LaunchdAdapter
      → Option ℕ × w.tool.State
      → PlatformResult DaemonHandle × w.tool.State
      → Type 0
  Put path body h a put o =
      ((code : ℕ) × (put.0 ≡ some code) × IsSpawnError o.0)
      ⊎ ((put.0 ≡ none) × Answered path body h (w.tool.run (bootstrap_args w a path) put.1) o)

  -- How a start ends, by what the directory, the file and `launchctl` came to.
  abbrev pub Outcome :
      LaunchdAdapter
      → DaemonId
      → List ℕ
      → w.tool.State
      → PlatformResult DaemonHandle × w.tool.State
      → Type 0
  Outcome a id daemon_name s o =
      let label = service_label daemon_name in
      let made = w.create_dir_all a.plist_dir s in
      ((code : ℕ) × (made.0 ≡ some code) × IsSpawnError o.0)
      ⊎ ((made.0 ≡ none)
          × Put (plist_path a label) (plist daemon_name) (launchd_handle id label) a
              (w.write (plist_path a label) (plist daemon_name) made.1) o)

  removed-Cleaned : (path : List ℕ) (s : w.tool.State) → Cleaned path s (w.remove_file path s).1
  removed-Cleaned path s = elim (Option-cases (w.remove_file path s).0) [
    | inl gone ↦ inr (files.removed path s gone)
    | inr kept ↦ inl kept
  ]

  bootstrapped-Answered :
      (id : DaemonId) (label path body : List ℕ) (c : Call) (s : w.tool.State)
      → files.content path s ≡ some body
      → Answered path body (launchd_handle id label) (c, s) (bootstrapped w id label path c s)
  bootstrapped-Answered id label path body (not_run code) s e = inr (inl (code, refl, (_, refl), e))
  bootstrapped-Answered id label path body (finished code out error) s e =
      elim (Bool-cases (success code)) [
        | inl good ↦
            rw good
              (inl (out, error, ap (λ c. finished c out error) (success-zero code good), refl, e))
        | inr bad ↦ rw bad (
            inr (
              inr
                (code, out, error, refl, not-success code bad, (_, refl), removed-Cleaned path s)))
      ]

  bootstrap-Put :
      (a : LaunchdAdapter) (id : DaemonId) (label body : List ℕ) (put : Option ℕ × w.tool.State)
      → (put.0 ≡ none → files.content (plist_path a label) put.1 ≡ some body)
      → Put (plist_path a label) body (launchd_handle id label) a put (bootstrap w a id label put)
  bootstrap-Put a id label body (some code, s) there = inl (code, refl, (_, refl))
  bootstrap-Put a id label body (none, s) there =
      let path = plist_path a label in
      inr (
        refl,
        bootstrapped-Answered id label path body (w.tool.run (bootstrap_args w a path) s).0 _
            (files.untouched (target w.uid a.domain) path s ∙ there refl),
      )

  write_plist-Outcome :
      (a : LaunchdAdapter) (id : DaemonId) (daemon_name : List ℕ) (s : w.tool.State)
      (made : Option ℕ × w.tool.State)
      → w.create_dir_all a.plist_dir s ≡ made
      → Outcome a id daemon_name s (write_plist w a id daemon_name made)
  write_plist-Outcome a id daemon_name s (some code, s') e = inl (code, ap (λ p. p.0) e, (_, refl))
  write_plist-Outcome a id daemon_name s (none, s') e =
      let label = service_label daemon_name in
      let path = plist_path a label in
      rw e (
        inr (
          refl,
          bootstrap-Put a id label (plist daemon_name) (w.write path (plist daemon_name) s')
              (files.written path (plist daemon_name) s'),
        ))

  -- A start of a service on a host whose files behave as files ends by what its steps come to. If the
  -- directory or the property list cannot be made, it is an error. If `launchctl` ends with the code 0,
  -- the service is started, with its handle, and its list stands on disk. If `launchctl` cannot be run,
  -- it is an error, and the list stands there all the same. If it ends otherwise, it is an error, and
  -- the list is gone, unless its removal fails.
  pub spawn-Outcome :
      (a : LaunchdAdapter) (id : DaemonId) (daemon_name : List ℕ) (s : w.tool.State)
      → Outcome a id daemon_name s (spawn w a id daemon_name s)
  unfolding spawn
  spawn-Outcome a id daemon_name s =
      write_plist-Outcome a id daemon_name s (w.create_dir_all a.plist_dir s) refl
