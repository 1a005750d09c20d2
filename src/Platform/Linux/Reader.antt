-- ===== src/Platform/Linux/Reader.antt =====
-- A reader of unit files, and what it finds in a generated one (crates/duende-platform/src/linux.rs).
use mathlib.Core.List.{append_assoc}
use duende.Prelude.{
  ℕ, ◌/◌, ◌≡◌, refl, ap, ◌∙◌, ◌&&◌, Bool, true, false, Option, none, some, String, List, [], ◌∷◌,
  ◌++◌, ◌==◌, ltb, if◌then◌else◌, append_nil,
}
use duende.Prelude.Float.{F64}
use duende.Prelude.Text.{chars, lines_from}
use duende.Prelude.Decimal.{to_string}
use duende.Core.Config.{
  DaemonConfig, ResourceConfig, ConfigRestart, never, always, on_failure, unless_stopped,
}
use duende.Platform.Linux.{arguments, restart_directive, generate_unit_file}
use duende.Platform.Linux.Unit.{
  some_line, working, user_of, group_of, environment_lines, limit_lines, unit_lines, last_lines,
  IsPlain,
}
use duende.Platform.Linux.Lines.{lines-generate_unit_file}

abbrev pub Directive : Type 0
Directive = List ℕ × (List ℕ × List ℕ)

-- '=' is 61 and '[' is 91.
abbrev assignment : List ℕ → List ℕ → Option (List ℕ × List ℕ)
assignment key [] = none
assignment key (c ∷ cs) =
    let rest = assignment (key ++ (c ∷ [])) cs in if c == 61 then some (key, cs) else rest

abbrev is_heading : List ℕ → Bool
is_heading [] = false
is_heading (c ∷ cs) = c == 91

abbrev under : List ℕ → Option (List ℕ × List ℕ) → List Directive → List Directive
under section none ds = ds
under section (some d) ds = (section, d) ∷ ds

-- The assignments in the lines, each behind the heading that it stands under.
abbrev pub directives : List ℕ → List (List ℕ) → List (List ℕ × (List ℕ × List ℕ))
directives section [] = []
directives section (l ∷ ls) =
    let inside = directives l ls in
    let rest = directives section ls in
    if is_heading l then inside else under section (assignment [] l) rest

abbrev words : List ℕ → List String → List ℕ
words first [] = first
words first (w ∷ ws) = first ++ (32 ∷ words (chars w) ws)

abbrev restart_word : ConfigRestart → String
restart_word never = "no"
restart_word always = "always"
restart_word on_failure = "on-failure"
restart_word unless_stopped = "unless-stopped"

abbrev in_service : String → List ℕ → Directive
in_service key value = (chars "[Service]", (chars key, value))

abbrev set : String → Option String → List Directive
set key none = []
set key (some value) = in_service key (chars value) ∷ []

abbrev set_if : Bool → String → List ℕ → List Directive
set_if true key value = in_service key value ∷ []
set_if false key value = []

-- "key=value", in quotes.
abbrev variables : List (String × String) → List Directive
variables [] = []
variables ((key, value) ∷ rest) =
    in_service "Environment" (34 ∷ (chars key ++ (61 ∷ (chars value ++ (34 ∷ [])))))
    ∷ variables rest

module _ (f : F64) (ten_thousandths : f.Carrier → ℕ) where
  -- What a configuration asks for, in order.
  abbrev pub wanted : DaemonConfig f.Carrier → List (List ℕ × (List ℕ × List ℕ))
  wanted c =
      (chars "[Unit]", (chars "Description", chars c.description))
      ∷ (chars "[Unit]", (chars "After", chars "network.target"))
      ∷ in_service "Type" (chars "simple")
      ∷ in_service "ExecStart" (words (chars c.binary_path) c.args)
      ∷ (set "WorkingDirectory" c.working_dir
          ++ (set "User" c.user
              ++ (set "Group" c.group
                  ++ (variables c.env
                      ++ (set_if (ltb 0 c.resources.memory_bytes) "MemoryMax"
                            (to_string c.resources.memory_bytes)
                          ++ (set_if
                                (f.lt (f.of_nat 0) c.resources.cpu_quota_percent
                                  && f.lt c.resources.cpu_quota_percent (f.of_nat 100))
                                "CPUQuota"
                                (to_string (ten_thousandths c.resources.cpu_quota_percent / 10000)
                                  ++ (37 ∷ []))
                              ++ (set_if (ltb 0 c.resources.pids_max) "TasksMax"
                                    (to_string c.resources.pids_max)
                                  ++ (in_service "Restart" (chars (restart_word c.restart))
                                      ∷ in_service "TimeoutStopSec"
                                          (to_string (c.shutdown_timeout / 1000000000))
                                      ∷ (
                                        chars "[Install]",
                                        (chars "WantedBy", chars "multi-user.target"),
                                      )
                                      ∷ []))))))))

abbrev service : List ℕ
service = chars "[Service]"

arguments-words : (first : List ℕ) (args : List String) → first ++ arguments args ≡ words first args
arguments-words first [] = append_nil first
arguments-words first (arg ∷ args) =
    ap (λ (t : List ℕ). first ++ (32 ∷ t)) (arguments-words (chars arg) args)

restart_directive-word : (r : ConfigRestart) → restart_directive r ≡ chars (restart_word r)
restart_directive-word never = refl
restart_directive-word always = refl
restart_directive-word on_failure = refl
restart_directive-word unless_stopped = refl

read_working :
    (o : Option String) (ls : List (List ℕ))
    → directives service (some_line working o ++ ls)
      ≡ set "WorkingDirectory" o ++ directives service ls
read_working none ls = refl
read_working (some dir) ls = refl

read_user :
    (o : Option String) (ls : List (List ℕ))
    → directives service (some_line user_of o ++ ls) ≡ set "User" o ++ directives service ls
read_user none ls = refl
read_user (some name) ls = refl

read_group :
    (o : Option String) (ls : List (List ℕ))
    → directives service (some_line group_of o ++ ls) ≡ set "Group" o ++ directives service ls
read_group none ls = refl
read_group (some name) ls = refl

read_environment :
    (env : List (String × String)) (ls : List (List ℕ))
    → directives service (environment_lines env ++ ls) ≡ variables env ++ directives service ls
read_environment [] ls = refl
read_environment ((key, value) ∷ rest) ls =
    ap
      (λ (ds : List Directive).
        in_service "Environment" (34 ∷ (chars key ++ (61 ∷ (chars value ++ (34 ∷ []))))) ∷ ds)
      (read_environment rest ls)

read_memory :
    (b : Bool) (text : List ℕ) (ls : List (List ℕ))
    → directives service ((if b then (chars "MemoryMax=" ++ text) ∷ [] else []) ++ ls)
      ≡ set_if b "MemoryMax" text ++ directives service ls
read_memory true text ls = refl
read_memory false text ls = refl

read_quota :
    (b : Bool) (text : List ℕ) (ls : List (List ℕ))
    → directives service ((if b then (chars "CPUQuota=" ++ text) ∷ [] else []) ++ ls)
      ≡ set_if b "CPUQuota" text ++ directives service ls
read_quota true text ls = refl
read_quota false text ls = refl

read_tasks :
    (b : Bool) (text : List ℕ) (ls : List (List ℕ))
    → directives service ((if b then (chars "TasksMax=" ++ text) ∷ [] else []) ++ ls)
      ≡ set_if b "TasksMax" text ++ directives service ls
read_tasks true text ls = refl
read_tasks false text ls = refl

and_rest :
    {a b rest : List Directive} (ds : List Directive) → a ≡ ds ++ rest → rest ≡ b → a ≡ ds ++ b
and_rest ds e k = e ∙ ap (λ (r : List Directive). ds ++ r) k

pair_eq :
    {a b : List ℕ} {x y : List Directive}
    → a ≡ b
    → x ≡ y
    → ◌≡◌ {A = List ℕ × List Directive} (a, x) (b, y)
pair_eq e k = rw (e, k) refl

module _ (f : F64) (ten_thousandths : f.Carrier → ℕ) where
  read_limits :
      (r : ResourceConfig f.Carrier) (ls : List (List ℕ)) (rest : List Directive)
      → directives service ls ≡ rest
      → directives service (limit_lines f ten_thousandths r ++ ls)
        ≡ set_if (ltb 0 r.memory_bytes) "MemoryMax" (to_string r.memory_bytes)
          ++ (set_if
                (f.lt (f.of_nat 0) r.cpu_quota_percent && f.lt r.cpu_quota_percent (f.of_nat 100))
                "CPUQuota"
                (to_string (ten_thousandths r.cpu_quota_percent / 10000) ++ (37 ∷ []))
              ++ (set_if (ltb 0 r.pids_max) "TasksMax" (to_string r.pids_max) ++ rest))
  read_limits r ls rest e =
      let quota =
        f.lt (f.of_nat 0) r.cpu_quota_percent && f.lt r.cpu_quota_percent (f.of_nat 100) in
      let text = to_string (ten_thousandths r.cpu_quota_percent / 10000) ++ (37 ∷ []) in
      let a : List (List ℕ) =
        if ltb 0 r.memory_bytes
        then (chars "MemoryMax=" ++ to_string r.memory_bytes) ∷ []
        else [] in
      let b : List (List ℕ) = if quota then (chars "CPUQuota=" ++ text) ∷ [] else [] in
      let c : List (List ℕ) =
        if ltb 0 r.pids_max then (chars "TasksMax=" ++ to_string r.pids_max) ∷ [] else [] in
      ap (directives service)
        (append_assoc a (b ++ c) ls ∙ ap (λ (l : List (List ℕ)). a ++ l) (append_assoc b c ls))
      ∙ and_rest (set_if (ltb 0 r.memory_bytes) "MemoryMax" (to_string r.memory_bytes))
          (read_memory (ltb 0 r.memory_bytes) _ _)
          (and_rest (set_if quota "CPUQuota" text) (read_quota quota text _) (
            and_rest (set_if (ltb 0 r.pids_max) "TasksMax" (to_string r.pids_max))
              (read_tasks (ltb 0 r.pids_max) _ ls) e))

  read_last :
      (c : DaemonConfig f.Carrier)
      → directives service (last_lines f ten_thousandths c)
        ≡ in_service "Restart" (chars (restart_word c.restart))
          ∷ in_service "TimeoutStopSec" (to_string (c.shutdown_timeout / 1000000000))
          ∷ (chars "[Install]", (chars "WantedBy", chars "multi-user.target"))
          ∷ []
  read_last c =
      ap
        (λ (t : List ℕ).
          in_service "Restart" t
          ∷ in_service "TimeoutStopSec" (to_string (c.shutdown_timeout / 1000000000))
          ∷ (chars "[Install]", (chars "WantedBy", chars "multi-user.target"))
          ∷ [])
        (restart_directive-word c.restart)

  read_unit_lines :
      (c : DaemonConfig f.Carrier)
      → directives [] (unit_lines f ten_thousandths c) ≡ wanted f ten_thousandths c
  unfolding unit_lines
  read_unit_lines c =
      let limits = read_limits c.resources (last_lines f ten_thousandths c) _ (read_last c) in
      let options = and_rest (set "WorkingDirectory" c.working_dir) (read_working c.working_dir _) (
        and_rest (set "User" c.user) (read_user c.user _) (
          and_rest (set "Group" c.group) (read_group c.group _)
            (and_rest (variables c.env) (read_environment c.env _) limits))) in
      ap
        (λ (p : List ℕ × List Directive).
          (chars "[Unit]", (chars "Description", chars c.description))
          ∷ (chars "[Unit]", (chars "After", chars "network.target"))
          ∷ in_service "Type" (chars "simple")
          ∷ in_service "ExecStart" p.0
          ∷ p.1)
        (pair_eq (arguments-words (chars c.binary_path) c.args) options)

  -- Where no text of the configuration has a line feed or a carriage return, a reader of the generated
  -- unit file finds these assignments under these headings, in this order, and no other: the
  -- description and the network target; the type, the command with its arguments, the directory, user
  -- and group that are set, a quoted text for each variable of the environment, the memory limit if it
  -- is above 0, the CPU quota if it is above 0 and below 100, the limit of tasks if it is above 0, the
  -- restart policy and the seconds to stop in; and the target that wants the unit.
  pub directives-generate_unit_file :
      (c : DaemonConfig f.Carrier)
      → IsPlain f.Carrier c
      → directives [] (lines_from [] (generate_unit_file f ten_thousandths c))
        ≡ wanted f ten_thousandths c
  directives-generate_unit_file c p =
      ap (directives []) (lines-generate_unit_file f ten_thousandths c p) ∙ read_unit_lines c
