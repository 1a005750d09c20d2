-- ===== src/Platform/Container/Arguments.antt =====
-- What a runtime reads in the arguments of a run: options with their values, then the image and the
-- command (crates/duende-platform/src/container.rs).
use duende.Prelude.{
  ℕ, ◌/◌, ◌≡◌, refl, sym, ap, ◌∙◌, Bool, true, false, ◌&&◌, Option, none, some, String, List, [],
  ◌∷◌, ◌++◌, ltb, ◌==◌, if◌then◌else◌, All, drop, arith,
}
use mathlib.Core.List.{append_assoc}
use duende.Prelude.Float.{F64}
use duende.Prelude.Text.{chars, same_text}
use duende.Prelude.Text.Lines.{All-append}
use duende.Prelude.Decimal.{to_string}
use duende.Core.Config.{DaemonConfig, ResourceConfig}
use duende.Platform.Container.{
  ContainerAdapter, container_name, restart_policy, option, environment, working_dir, user_text,
  user, texts, limits, image, build_run_args,
}

abbrev pub starts_with : ℕ → List ℕ → Bool
starts_with c [] = false
starts_with c (x ∷ xs) = x == c

-- `-d` has no value, another word that begins with a hyphen (45) has the next one as its value, and
-- the first word that does not begin with one is the image.
unfoldable pub read_run : List (List ℕ) → List (List ℕ × List ℕ) × List (List ℕ)
read_run [] = ([], [])
read_run (word ∷ []) = ([], word ∷ [])
read_run (word ∷ next ∷ rest) =
    let flag = read_run (next ∷ rest) in
    let others = read_run rest in
    if same_text word (chars "-d")
    then flag
    else if starts_with 45 word
    then ((word, next) ∷ others.0, others.1)
    else ([], word ∷ next ∷ rest)

-- A word that takes a value.
abbrev pub TakesValue : List ℕ × List ℕ → Type 0
TakesValue p = (same_text p.0 (chars "-d") ≡ false) × (starts_with 45 p.0 ≡ true)

abbrev pub words : List (List ℕ × List ℕ) → List (List ℕ)
words [] = []
words ((name, value) ∷ rest) = name ∷ value ∷ words rest

words-append : (xs ys : List (List ℕ × List ℕ)) → words (xs ++ ys) ≡ words xs ++ words ys
words-append [] ys = refl
words-append ((name, value) ∷ xs) ys =
    ap (λ (t : List (List ℕ)). name ∷ value ∷ t) (words-append xs ys)

not_flag : (w : List ℕ) → starts_with 45 w ≡ false → same_text w (chars "-d") ≡ false
not_flag [] h = refl
not_flag (x ∷ xs) h = ground arith

read_run-image :
    (word : List ℕ) (rest : List (List ℕ))
    → starts_with 45 word ≡ false
    → same_text word (chars "-d") ≡ false
    → read_run (word ∷ rest) ≡ ([], word ∷ rest)
unfolding read_run
read_run-image word [] h k = refl
read_run-image word (next ∷ rest) h k = rw (k, read_run) (rw h refl)

read_run-words :
    (options : List (List ℕ × List ℕ)) (word : List ℕ) (rest : List (List ℕ))
    → All TakesValue options
    → starts_with 45 word ≡ false
    → same_text word (chars "-d") ≡ false
    → read_run (words options ++ (word ∷ rest)) ≡ (options, word ∷ rest)
unfolding read_run
read_run-words [] word rest p h k = read_run-image word rest h k
read_run-words ((name, value) ∷ options) word rest p h k =
    rw (p.0.0, read_run)
      (rw p.0.1 (ap (λ r. ((name, value) ∷ r.0, r.1)) (read_run-words options word rest p.1 h k)))

-- The options of a configuration.
abbrev pub environment_options : List (String × String) → List (List ℕ × List ℕ)
environment_options [] = []
environment_options ((key, value) ∷ rest) =
    (chars "-e", chars key ++ (61 ∷ chars value)) ∷ environment_options rest

abbrev pub working_dir_options : Option String → List (List ℕ × List ℕ)
working_dir_options none = []
working_dir_options (some dir) = (chars "-w", chars dir) ∷ []

abbrev pub user_options : Option String → Option String → List (List ℕ × List ℕ)
user_options none group = []
user_options (some name) group = (chars "--user", user_text name group) ∷ []

words-environment_options :
    (env : List (String × String)) → words (environment_options env) ≡ environment env
words-environment_options [] = refl
words-environment_options ((key, value) ∷ rest) =
    ap (λ (t : List (List ℕ)). chars "-e" ∷ (chars key ++ (61 ∷ chars value)) ∷ t)
      (words-environment_options rest)

words-working_dir_options : (o : Option String) → words (working_dir_options o) ≡ working_dir o
words-working_dir_options none = refl
words-working_dir_options (some dir) = refl

words-user_options : (o group : Option String) → words (user_options o group) ≡ user o group
words-user_options none group = refl
words-user_options (some name) group = refl

environment-TakesValue : (env : List (String × String)) → All TakesValue (environment_options env)
environment-TakesValue [] = tt
environment-TakesValue ((key, value) ∷ rest) = ((refl, refl), environment-TakesValue rest)

working_dir-TakesValue : (o : Option String) → All TakesValue (working_dir_options o)
working_dir-TakesValue none = tt
working_dir-TakesValue (some dir) = ((refl, refl), tt)

user-TakesValue : (o group : Option String) → All TakesValue (user_options o group)
user-TakesValue none group = tt
user-TakesValue (some name) group = ((refl, refl), tt)

unfoldable pub if_option : Bool → String → List ℕ → List (List ℕ × List ℕ)
if_option true name value = (chars name, value) ∷ []
if_option false name value = []

words-if_option :
    (b : Bool) (name : String) (value : List ℕ)
    → words (if_option b name value) ≡ (if b then option name value else [])
unfolding if_option
words-if_option true name value = refl
words-if_option false name value = refl

if_option-TakesValue :
    (b : Bool) (name : String) (value : List ℕ)
    → TakesValue (chars name, value)
    → All TakesValue (if_option b name value)
unfolding if_option
if_option-TakesValue true name value h = (h, tt)
if_option-TakesValue false name value h = tt

words-parts :
    (xs ys : List (List ℕ × List ℕ)) (a b : List (List ℕ))
    → words xs ≡ a
    → words ys ≡ b
    → words (xs ++ ys) ≡ a ++ b
words-parts xs ys a b e k =
    words-append xs ys
    ∙ ap (λ (t : List (List ℕ)). t ++ words ys) e
    ∙ ap (λ (t : List (List ℕ)). a ++ t) k

words-then :
    (xs ys : List (List ℕ × List ℕ)) (a b tail : List (List ℕ))
    → words xs ≡ a
    → words ys ++ tail ≡ b
    → words (xs ++ ys) ++ tail ≡ a ++ b
words-then xs ys a b tail e k =
    ap (λ (t : List (List ℕ)). t ++ tail) (words-append xs ys)
    ∙ append_assoc (words xs) (words ys) tail
    ∙ ap (λ (t : List (List ℕ)). t ++ (words ys ++ tail)) e
    ∙ ap (λ (t : List (List ℕ)). a ++ t) k

module _ (f : F64) (cpus : f.Carrier → List ℕ) (file_name : List ℕ → Option (List ℕ)) where
  abbrev pub limit_options : ResourceConfig f.Carrier → List (List ℕ × List ℕ)
  limit_options r =
      if_option (ltb 0 r.memory_bytes) "--memory" (to_string r.memory_bytes ++ chars "b")
      ++ (if_option
            (f.lt (f.of_nat 0) r.cpu_quota_percent && f.lt r.cpu_quota_percent (f.of_nat 100))
            "--cpus" (cpus r.cpu_quota_percent)
          ++ if_option (ltb 0 r.pids_max) "--pids-limit" (to_string r.pids_max))

  -- The options that a configuration asks for, but for the name.
  unfoldable pub run_options : DaemonConfig f.Carrier → List (List ℕ × List ℕ)
  run_options c =
      limit_options c.resources
      ++ (environment_options c.env
          ++ (working_dir_options c.working_dir
              ++ (user_options c.user c.group
                  ++ ((chars "--restart", restart_policy c.restart)
                      ∷ (chars "--stop-timeout", to_string (c.shutdown_timeout / 1000000000))
                      ∷ []))))

  words-limit_options :
      (r : ResourceConfig f.Carrier) → words (limit_options r) ≡ limits f cpus file_name r
  words-limit_options r =
      words-parts _ _ _ _ (words-if_option (ltb 0 r.memory_bytes) "--memory" _) (
        words-parts _ _ _ _ (words-if_option _ "--cpus" (cpus r.cpu_quota_percent))
          (words-if_option (ltb 0 r.pids_max) "--pids-limit" _))

  words-run_options :
      (a : ContainerAdapter) (c : DaemonConfig f.Carrier)
      → chars "run"
          ∷ chars "-d"
          ∷ (words ((chars "--name", container_name (chars c.name)) ∷ run_options c)
              ++ (image f cpus file_name a c ∷ texts c.args))
        ≡ build_run_args f cpus file_name a c
  unfolding run_options build_run_args
  words-run_options a c =
      let tail = image f cpus file_name a c ∷ texts c.args in
      let last =
        (chars "--restart", restart_policy c.restart)
        ∷ (chars "--stop-timeout", to_string (c.shutdown_timeout / 1000000000))
        ∷ [] in
      let parts = words-then _ _ _ _ tail (words-limit_options c.resources) (
        words-then _ _ _ _ tail (words-environment_options c.env) (
          words-then _ _ _ _ tail (words-working_dir_options c.working_dir)
            (words-then _ last _ _ tail (words-user_options c.user c.group) refl))) in
      ap
        (λ (t : List (List ℕ)).
          chars "run" ∷ chars "-d" ∷ chars "--name" ∷ container_name (chars c.name) ∷ t)
        parts

  run_options-TakesValue : (c : DaemonConfig f.Carrier) → All TakesValue (run_options c)
  unfolding run_options
  run_options-TakesValue c =
      All-append TakesValue _ _
        (All-append TakesValue _ _ (if_option-TakesValue _ "--memory" _ (refl, refl)) (
          All-append TakesValue _ _
            (if_option-TakesValue _ "--cpus" (cpus c.resources.cpu_quota_percent) (refl, refl))
            (if_option-TakesValue _ "--pids-limit" _ (refl, refl))))
        (All-append TakesValue _ _ (environment-TakesValue c.env) (
          All-append TakesValue _ _ (working_dir-TakesValue c.working_dir) (
            All-append TakesValue _ _ (user-TakesValue c.user c.group)
              ((refl, refl), ((refl, refl), tt)))))

  -- Where the image does not begin with a hyphen, a reader of the arguments of a run that takes `-d`
  -- alone, and every other word that begins with a hyphen with the next one, reads the name of the
  -- container, then the options of the configuration with their values and in their order, and then the
  -- image and the arguments of the command.
  pub read_run-build_run_args :
      (a : ContainerAdapter) (c : DaemonConfig f.Carrier)
      → starts_with 45 (image f cpus file_name a c) ≡ false
      → read_run (drop 1 (build_run_args f cpus file_name a c)) ≡ (
        (chars "--name", container_name (chars c.name)) ∷ run_options c,
        image f cpus file_name a c ∷ texts c.args,
      )
  unfolding read_run
  read_run-build_run_args a c h =
      let options = (chars "--name", container_name (chars c.name)) ∷ run_options c in
      ap (λ ws. read_run (drop 1 ws)) (sym (words-run_options a c))
      ∙ read_run-words options (image f cpus file_name a c) (texts c.args)
          ((refl, refl), run_options-TakesValue c) h (not_flag (image f cpus file_name a c) h)
