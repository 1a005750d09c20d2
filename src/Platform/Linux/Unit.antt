-- ===== src/Platform/Linux/Unit.antt =====
-- What a reader of lines finds in a generated unit file (crates/duende-platform/src/linux.rs).
use duende.Prelude.{
  ℕ, ◌/◌, ◌≡◌, refl, ap, ◌∙◌, ◌&&◌, Bool, true, false, Option, none, some, String, List, [], ◌∷◌,
  ◌++◌, ltb, if◌then◌else◌, All, append_nil,
}
use duende.Prelude.Float.{F64}
use duende.Prelude.Text.{chars}
use duende.Prelude.Text.Lines.{unlines, IsLine, unlines-append}
use duende.Prelude.Decimal.{to_string}
use duende.Core.Config.{DaemonConfig, ResourceConfig}
use duende.Platform.Linux.{
  line, if_some, arguments, environment, restart_directive, limits, generate_unit_file,
}

-- The lines of the unit, each a list item.
abbrev pub some_line : (List ℕ → List ℕ) → Option String → List (List ℕ)
some_line f none = []
some_line f (some s) = f (chars s) ∷ []

abbrev pub environment_lines : List (String × String) → List (List ℕ)
environment_lines [] = []
environment_lines ((key, value) ∷ rest) =
    (chars "Environment=\"" ++ (chars key ++ (61 ∷ (chars value ++ chars "\""))))
    ∷ environment_lines rest

abbrev pub working : List ℕ → List ℕ
working dir = chars "WorkingDirectory=" ++ dir

abbrev pub user_of : List ℕ → List ℕ
user_of name = chars "User=" ++ name

abbrev pub group_of : List ℕ → List ℕ
group_of name = chars "Group=" ++ name

module _ (f : F64) (ten_thousandths : f.Carrier → ℕ) where
  abbrev pub limit_lines : ResourceConfig f.Carrier → List (List ℕ)
  limit_lines r =
      (if ltb 0 r.memory_bytes then (chars "MemoryMax=" ++ to_string r.memory_bytes) ∷ [] else [])
      ++ ((if f.lt (f.of_nat 0) r.cpu_quota_percent && f.lt r.cpu_quota_percent (f.of_nat 100)
            then (chars "CPUQuota="
                ++ (to_string (ten_thousandths r.cpu_quota_percent / 10000) ++ (37 ∷ [])))
              ∷ []
            else [])
          ++ (if ltb 0 r.pids_max then (chars "TasksMax=" ++ to_string r.pids_max) ∷ [] else []))

  unfoldable pub unit_lines : DaemonConfig f.Carrier → List (List ℕ)
  unit_lines c =
      chars "[Unit]"
      ∷ (chars "Description=" ++ chars c.description)
      ∷ chars "After=network.target"
      ∷ []
      ∷ chars "[Service]"
      ∷ chars "Type=simple"
      ∷ (chars "ExecStart=" ++ (chars c.binary_path ++ arguments c.args))
      ∷ (some_line working c.working_dir
          ++ (some_line user_of c.user
              ++ (some_line group_of c.group
                  ++ (environment_lines c.env
                      ++ (limit_lines c.resources
                          ++ ((chars "Restart=" ++ restart_directive c.restart)
                              ∷ (chars "TimeoutStopSec="
                                  ++ to_string (c.shutdown_timeout / 1000000000))
                              ∷ []
                              ∷ chars "[Install]"
                              ∷ chars "WantedBy=multi-user.target"
                              ∷ []))))))

unlines-parts :
    (xs ys : List (List ℕ)) (a b : List ℕ)
    → unlines xs ≡ a
    → unlines ys ≡ b
    → unlines (xs ++ ys) ≡ a ++ b
unlines-parts xs ys a b e k =
    unlines-append xs ys ∙ ap (λ (t : List ℕ). t ++ unlines ys) e ∙ ap (λ (t : List ℕ). a ++ t) k

unlines-single : (l : List ℕ) → unlines (l ∷ []) ≡ line l
unfolding unlines
unlines-single l = append_nil (l ++ (10 ∷ []))

unlines-some_line :
    (g : List ℕ → List ℕ) (o : Option String)
    → unlines (some_line g o) ≡ if_some (λ s. line (g s)) o
unlines-some_line g none = unfold unlines in refl
unlines-some_line g (some s) = unlines-single (g (chars s))

unlines-environment_lines :
    (env : List (String × String)) → unlines (environment_lines env) ≡ environment env
unfolding unlines
unlines-environment_lines [] = refl
unlines-environment_lines ((key, value) ∷ rest) =
    ap
      (λ (t : List ℕ).
        line (chars "Environment=\"" ++ (chars key ++ (61 ∷ (chars value ++ chars "\"")))) ++ t)
      (unlines-environment_lines rest)

unlines-if :
    (b : Bool) (l : List ℕ) → unlines (if b then l ∷ [] else []) ≡ (if b then line l else [])
unlines-if true l = unlines-single l
unlines-if false l = unfold unlines in refl

module _ (f : F64) (ten_thousandths : f.Carrier → ℕ) where
  unlines-limit_lines :
      (r : ResourceConfig f.Carrier)
      → unlines (limit_lines f ten_thousandths r) ≡ limits f ten_thousandths r
  unlines-limit_lines r = unlines-parts _ _ _ _ (unlines-if (ltb 0 r.memory_bytes) _) (
      unlines-parts _ _ _ _
        (unlines-if
          (f.lt (f.of_nat 0) r.cpu_quota_percent && f.lt r.cpu_quota_percent (f.of_nat 100)) _)
        (unlines-if (ltb 0 r.pids_max) _))

  -- The last lines, from the policy of restarts on.
  abbrev pub last_lines : DaemonConfig f.Carrier → List (List ℕ)
  last_lines c =
      (chars "Restart=" ++ restart_directive c.restart)
      ∷ (chars "TimeoutStopSec=" ++ to_string (c.shutdown_timeout / 1000000000))
      ∷ []
      ∷ chars "[Install]"
      ∷ chars "WantedBy=multi-user.target"
      ∷ []

  pub unlines-unit_lines :
      (c : DaemonConfig f.Carrier)
      → unlines (unit_lines f ten_thousandths c) ≡ generate_unit_file f ten_thousandths c
  unfolding unit_lines generate_unit_file unlines
  unlines-unit_lines c =
      let optional = unlines-parts _ _ _ _ (unlines-some_line working c.working_dir) (
        unlines-parts _ _ _ _ (unlines-some_line user_of c.user) (
          unlines-parts _ _ _ _ (unlines-some_line group_of c.group) (
            unlines-parts _ _ _ _ (unlines-environment_lines c.env)
              (unlines-parts _ (last_lines c) _ _ (unlines-limit_lines c.resources) refl)))) in
      rw optional refl

-- No text of the configuration has a line feed or a carriage return.
abbrev pub IsText : String → Type 0
IsText s = IsLine (chars s)

abbrev pub IsOptionalText : Option String → Type 0
IsOptionalText none = Unit {0}
IsOptionalText (some s) = IsText s

pub record IsPlain (F : Type 0) (c : DaemonConfig F) : Type 0 where
  pub description_plain : IsText c.description
  pub binary_path_plain : IsText c.binary_path
  pub args_plain : All IsText c.args
  pub working_dir_plain : IsOptionalText c.working_dir
  pub user_plain : IsOptionalText c.user
  pub group_plain : IsOptionalText c.group
  pub env_plain : All (λ p. IsText p.0 × IsText p.1) c.env
