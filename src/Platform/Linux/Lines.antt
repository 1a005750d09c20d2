-- ===== src/Platform/Linux/Lines.antt =====
-- The lines of a generated unit file are those of its directives, where no text of the configuration
-- breaks a line (crates/duende-platform/src/linux.rs).
use duende.Prelude.{
  ℕ, ◌/◌, ◌≡◌, sym, ap, ◌∙◌, ◌&&◌, Bool, true, false, Option, none, some, String, List, [], ◌∷◌,
  ◌++◌, ltb, if◌then◌else◌, All, arith,
}
use duende.Prelude.Float.{F64}
use duende.Prelude.Text.{chars, lines_from}
use duende.Prelude.Text.Lines.{IsLine, lines_from-unlines, IsLine-append, All-append, print-IsLine}
use duende.Prelude.Decimal.{to_string}
use duende.Core.Config.{
  DaemonConfig, ResourceConfig, ConfigRestart, never, always, on_failure, unless_stopped,
}
use duende.Platform.Linux.{arguments, restart_directive, generate_unit_file}
use duende.Platform.Linux.Unit.{
  some_line, environment_lines, limit_lines, last_lines, unit_lines, unlines-unit_lines, IsText,
  IsOptionalText, IsPlain,
}

arguments-IsLine : (args : List String) → All IsText args → IsLine (arguments args)
arguments-IsLine [] h = (tt, tt)
arguments-IsLine (arg ∷ args) h =
    IsLine-append (32 ∷ chars arg) (arguments args) ((omega arith, h.0.0), (omega arith, h.0.1))
      (arguments-IsLine args h.1)

environment_lines-IsLine :
    (env : List (String × String))
    → All (λ p. IsText p.0 × IsText p.1) env
    → All IsLine (environment_lines env)
environment_lines-IsLine [] h = tt
environment_lines-IsLine ((key, value) ∷ rest) h =
    let quoted =
      IsLine-append (61 ∷ chars value) (chars "\"") ((omega arith, h.0.1.0), (omega arith, h.0.1.1))
        (ground arith) in
    (
      IsLine-append (chars "Environment=\"") (chars key ++ (61 ∷ (chars value ++ chars "\"")))
          (ground arith)
          (IsLine-append (chars key) (61 ∷ (chars value ++ chars "\"")) h.0.0 quoted),
      environment_lines-IsLine rest h.1,
    )

some_line-IsLine :
    (prefix : List ℕ) (o : Option String)
    → IsLine prefix
    → IsOptionalText o
    → All IsLine (some_line (λ s. prefix ++ s) o)
some_line-IsLine prefix none h k = tt
some_line-IsLine prefix (some s) h k = (IsLine-append prefix (chars s) h k, tt)

if-IsLine : (b : Bool) (l : List ℕ) → IsLine l → All IsLine (if b then l ∷ [] else [])
if-IsLine true l h = (h, tt)
if-IsLine false l h = tt

restart_directive-IsLine : (r : ConfigRestart) → IsLine (restart_directive r)
restart_directive-IsLine never = ground arith
restart_directive-IsLine always = ground arith
restart_directive-IsLine on_failure = ground arith
restart_directive-IsLine unless_stopped = ground arith

module _ (f : F64) (ten_thousandths : f.Carrier → ℕ) where
  limit_lines-IsLine : (r : ResourceConfig f.Carrier) → All IsLine (limit_lines f ten_thousandths r)
  limit_lines-IsLine r =
      let memory =
        IsLine-append (chars "MemoryMax=") (to_string r.memory_bytes) (ground arith)
          (print-IsLine 20 r.memory_bytes) in
      let quota = ten_thousandths r.cpu_quota_percent / 10000 in
      let cpu =
        IsLine-append (chars "CPUQuota=") (to_string quota ++ (37 ∷ [])) (ground arith)
          (IsLine-append (to_string quota) (37 ∷ []) (print-IsLine 20 quota) (ground arith)) in
      let tasks =
        IsLine-append (chars "TasksMax=") (to_string r.pids_max) (ground arith)
          (print-IsLine 20 r.pids_max) in
      All-append IsLine _ _ (if-IsLine (ltb 0 r.memory_bytes) _ memory) (
        All-append IsLine _ _
          (if-IsLine
            (f.lt (f.of_nat 0) r.cpu_quota_percent && f.lt r.cpu_quota_percent (f.of_nat 100)) _
            cpu)
          (if-IsLine (ltb 0 r.pids_max) _ tasks))

  last_lines-IsLine : (c : DaemonConfig f.Carrier) → All IsLine (last_lines f ten_thousandths c)
  last_lines-IsLine c =
      let seconds = c.shutdown_timeout / 1000000000 in
      let restart =
        IsLine-append (chars "Restart=") (restart_directive c.restart) (ground arith)
          (restart_directive-IsLine c.restart) in
      let stopping =
        IsLine-append (chars "TimeoutStopSec=") (to_string seconds) (ground arith)
          (print-IsLine 20 seconds) in
      let end : All IsLine ([] ∷ chars "[Install]" ∷ chars "WantedBy=multi-user.target" ∷ []) =
        ground arith in
      (restart, (stopping, end))

  unit_lines-IsLine :
      (c : DaemonConfig f.Carrier)
      → IsPlain f.Carrier c
      → All IsLine (unit_lines f ten_thousandths c)
  unfolding unit_lines
  unit_lines-IsLine c p =
      let optional =
        All-append IsLine _ _
          (some_line-IsLine (chars "WorkingDirectory=") c.working_dir (ground arith)
            p.working_dir_plain)
          (All-append IsLine _ _
            (some_line-IsLine (chars "User=") c.user (ground arith) p.user_plain)
            (All-append IsLine _ _
              (some_line-IsLine (chars "Group=") c.group (ground arith) p.group_plain)
              (All-append IsLine _ _ (environment_lines-IsLine c.env p.env_plain)
                (All-append IsLine _ _ (limit_lines-IsLine c.resources) (last_lines-IsLine c))))) in
      let described =
        IsLine-append (chars "Description=") (chars c.description) (ground arith)
          p.description_plain in
      let started =
        IsLine-append (chars "ExecStart=") (chars c.binary_path ++ arguments c.args) (ground arith)
          (IsLine-append (chars c.binary_path) (arguments c.args) p.binary_path_plain
            (arguments-IsLine c.args p.args_plain)) in
      let head : All IsLine (chars "[Service]" ∷ chars "Type=simple" ∷ []) = ground arith in
      let begun : All IsLine (chars "After=network.target" ∷ [] ∷ []) = ground arith in
      let first : IsLine (chars "[Unit]") = ground arith in
      (first, (described, (begun.0, (begun.1.0, (head.0, (head.1.0, (started, optional)))))))

  -- Where no text of the configuration breaks a line, the unit file has the lines `unit_lines`.
  pub lines-generate_unit_file :
      (c : DaemonConfig f.Carrier)
      → IsPlain f.Carrier c
      → lines_from [] (generate_unit_file f ten_thousandths c) ≡ unit_lines f ten_thousandths c
  lines-generate_unit_file c p =
      ap (lines_from []) (sym (unlines-unit_lines f ten_thousandths c))
      ∙ lines_from-unlines (unit_lines f ten_thousandths c) (unit_lines-IsLine c p)
