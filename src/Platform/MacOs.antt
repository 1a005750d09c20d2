-- ===== src/Platform/MacOs.antt =====
-- crates/duende-platform/src/macos.rs: services of launchd, by property lists in files and the tools
-- `launchctl` and `kill`.
pub mod Listing
use duende.Prelude.{
  ℕ, zero, suc, Bool, true, false, not, ◌||◌, ◌&&◌, Option, none, some, String, List, [], ◌∷◌, ◌++◌,
  ltb, ◌==◌, if◌then◌else◌,
}
use duende.Prelude.Float.{F64}
use duende.Prelude.Text.{chars, same_text, contains, trim, join, lines_from}
use duende.Prelude.Decimal.{to_string}
use duende.Core.Types.{
  ℤ, pos, negsuc, DaemonStatus, running, stopped, failed, created, exit_code, Signal, hup, int,
  quit, term, kill, usr1, usr2, stop, cont,
}
use duende.Core.Config
use duende.Core.Config.{DaemonConfig, ResourceConfig, ConfigRestart, never}
use duende.Core.Adapter.{text, with_code}
use duende.Core.Adapters.Tool.{Call, Tool, replace, parse_i32}
use duende.Core.Adapters.Launchd.{split_from}
use duende.Platform.Error.{PlatformError, Result, ok, err, ◌>>=◌, ok_or}
use duende.Platform.Handle.{DaemonHandle, TracerHandle, mac_os, is_for, launchd_handle}
use duende.Platform.Commands.{Host, output, checked}

pub record MacOsAdapter : Type 0 where
  pub daemons_dir : List ℕ
  pub user_agent : Bool

abbrev pub with_daemons_dir : List ℕ → MacOsAdapter
with_daemons_dir dir = record { daemons_dir = dir; user_agent = false }

abbrev pub new : MacOsAdapter
new = with_daemons_dir (chars "/Library/LaunchDaemons")

abbrev pub home_or_tmp : Option (List ℕ) → List ℕ
home_or_tmp none = chars "/tmp"
home_or_tmp (some home) = home

-- `home` is the variable HOME.
abbrev pub for_user : Option (List ℕ) → MacOsAdapter
for_user home = record {
  daemons_dir = home_or_tmp home ++ chars "/Library/LaunchAgents";
  user_agent = true;
}

unfoldable pub service_label : List ℕ → List ℕ
unfolding replace
service_label daemon_name = chars "com.duende." ++ replace 32 45 daemon_name

abbrev pub plist_filename : List ℕ → List ℕ
plist_filename daemon_name = service_label daemon_name ++ chars ".plist"

abbrev pub key : String → List ℕ
key name = chars "    <key>" ++ (chars name ++ chars "</key>\n")

abbrev pub string_item : List ℕ → List ℕ
string_item value = chars "    <string>" ++ (value ++ chars "</string>\n")

abbrev pub inner_string : List ℕ → List ℕ
inner_string value = chars "        <string>" ++ (value ++ chars "</string>\n")

abbrev pub inner_key : List ℕ → List ℕ
inner_key value = chars "        <key>" ++ (value ++ chars "</key>\n")

abbrev pub keyed : String → Option String → List ℕ
keyed name none = []
keyed name (some value) = key name ++ string_item (chars value)

abbrev pub arguments : List String → List ℕ
arguments [] = []
arguments (arg ∷ args) = inner_string (chars arg) ++ arguments args

abbrev pub variables : List (String × String) → List ℕ
variables [] = []
variables ((name, value) ∷ rest) =
    inner_key (chars name) ++ (inner_string (chars value) ++ variables rest)

abbrev pub environment : List (String × String) → List ℕ
environment [] = []
environment (v ∷ vs) =
    key "EnvironmentVariables"
    ++ (chars "    <dict>\n" ++ (variables (v ∷ vs) ++ chars "    </dict>\n"))

abbrev pub keep_alive : ConfigRestart → List ℕ
keep_alive never = chars "    <false/>\n"
keep_alive _ = chars "    <true/>\n"

abbrev pub soft_limit : String → ℕ → List ℕ
soft_limit name n =
    if ltb 0 n
    then inner_key (chars name)
      ++ (chars "        <integer>" ++ (to_string n ++ chars "</integer>\n"))
    else []

abbrev pub limits : ℕ → ℕ → List ℕ
limits memory files =
    if ltb 0 memory || ltb 0 files
    then key "SoftResourceLimits"
      ++ (chars "    <dict>\n"
          ++ (soft_limit "MemoryLock" memory
              ++ (soft_limit "NumberOfFiles" files ++ chars "    </dict>\n")))
    else []

abbrev pub identity : Bool → Option String → Option String → List ℕ
identity true user group = []
identity false user group = keyed "UserName" user ++ keyed "GroupName" group

unfoldable pub generate_plist : {F : Type 0} → MacOsAdapter → DaemonConfig F → List ℕ
unfolding service_label
generate_plist a c =
    let label = service_label (chars c.name) in
    chars "<?xml version=\"1.0\" encoding=\"UTF-8\"?>\n"
    ++ (chars "<!DOCTYPE plist PUBLIC \"-//Apple//DTD PLIST 1.0//EN\" "
        ++ (chars "\"http://www.apple.com/DTDs/PropertyList-1.0.dtd\">\n"
            ++ (chars "<plist version=\"1.0\">\n<dict>\n"
                ++ (key "Label"
                    ++ (string_item label
                        ++ (key "ProgramArguments"
                            ++ (chars "    <array>\n"
                                ++ (inner_string (chars c.binary_path)
                                    ++ (arguments c.args
                                        ++ (chars "    </array>\n"
                                            ++ (keyed "WorkingDirectory" c.working_dir
                                                ++ (identity a.user_agent c.user c.group
                                                    ++ (environment c.env
                                                        ++ (key "KeepAlive"
                                                            ++ (keep_alive c.restart
                                                            ++ (key "RunAtLoad"
                                                            ++ (chars "    <true/>\n"
                                                            ++ (key "StandardOutPath"
                                                            ++ (string_item (
                                                            chars "/var/log/"
                                                            ++ (label ++ chars ".log"))
                                                            ++ (key "StandardErrorPath"
                                                            ++ (string_item (
                                                            chars "/var/log/"
                                                            ++ (label ++ chars ".error.log"))
                                                            ++ (limits c.resources.memory_bytes
                                                            c.resources.open_files_max
                                                            ++ chars
                                                            "</dict>\n</plist>\n"))))))))))))))))))))))

abbrev pub code_or_one : Option ℤ → ℤ
code_or_one none = pos 1
code_or_one (some code) = code

abbrev pub status_of : List ℕ → List ℕ → DaemonStatus
status_of pid status =
    if same_text pid (chars "-")
    then (if same_text status (chars "0")
        then stopped
        else failed (exit_code (code_or_one (parse_i32 status))))
    else running

-- Of a line with three columns whose third is the label.
abbrev pub of_columns : List ℕ → List (List ℕ) → Option DaemonStatus
of_columns label (pid ∷ status ∷ name ∷ more) =
    if same_text name label then some (status_of (trim pid) (trim status)) else none
of_columns label _ = none

unfoldable pub status_of_lines : List ℕ → List (List ℕ) → DaemonStatus
unfolding split_from
status_of_lines label [] = created
status_of_lines label (l ∷ ls) = elim (of_columns label (split_from 9 [] l)) [
  | some status ↦ status
  | none ↦ status_of_lines label ls
]

unfoldable pub parse_status : List ℕ → List ℕ → DaemonStatus
unfolding status_of_lines lines_from
parse_status out label = status_of_lines label (lines_from [] out)

unfoldable pub signal_number : Signal → ℕ
signal_number term = 15
signal_number kill = 9
signal_number hup = 1
signal_number int = 2
signal_number quit = 3
signal_number usr1 = 30
signal_number usr2 = 31
signal_number stop = 17
signal_number cont = 19

-- `trim_end_matches` of semicolons (59).
abbrev pub drop_semicolons : List ℕ → List ℕ
drop_semicolons [] = []
drop_semicolons (c ∷ cs) = elim (drop_semicolons cs) [
  | [] ↦ if c == 59 then [] else c ∷ []
  | d ∷ ds ↦ c ∷ d ∷ ds
]

abbrev pub second : List (List ℕ) → Option (List ℕ)
second (a ∷ b ∷ rest) = some b
second _ = none

abbrev pub number_of : Option (List ℕ) → Option ℤ
number_of none = none
number_of (some word) = parse_i32 (drop_semicolons (trim word))

-- The first line with a PID that can be read (61 is '=').
unfoldable pub find_pid : List (List ℕ) → Option ℤ
unfolding contains split_from parse_i32
find_pid [] = none
find_pid (l ∷ ls) =
    let later = find_pid ls in
    if contains (chars "\"PID\"") l
    then elim (number_of (second (split_from 61 [] l))) [ some pid ↦ some pid | none ↦ later ]
    else later

unfoldable pub pid_of_listing : List ℕ → Option ℤ
unfolding find_pid lines_from
pid_of_listing out = find_pid (lines_from [] out)

-- `to_string` of an i32.
abbrev pub signed_text : ℤ → List ℕ
signed_text (pos n) = to_string n
signed_text (negsuc n) = 45 ∷ to_string (suc n)

abbrev pub list_args : List ℕ → List (List ℕ)
list_args label = chars "launchctl" ∷ chars "list" ∷ label ∷ []

abbrev pub kill_args : Signal → ℤ → List (List ℕ)
kill_args sig pid = chars "kill" ∷ (45 ∷ to_string (signal_number sig)) ∷ signed_text pid ∷ []

module _ (w : Host) where
  abbrev pub load : List ℕ → List ℕ → Option ℕ × w.tool.State → Result DaemonHandle × w.tool.State
  load label path (some code, s) =
      (err (PlatformError.spawn (with_code "failed to write plist: " code)), s)
  load label path (none, s) =
      let args = chars "launchctl" ∷ chars "load" ∷ chars "-w" ∷ path ∷ [] in
      (
        checked PlatformError.spawn "launchctl load failed: " (w.tool.run args s).0 >>= λ out.
            ok (launchd_handle label),
        (w.tool.run args s).1,
      )

  -- The configuration is the default one of the daemon's name and `/bin/false`.
  unfoldable pub spawn :
      F64 → MacOsAdapter → String → w.tool.State → Result DaemonHandle × w.tool.State
  unfolding generate_plist service_label Config.new
  spawn f a name s =
      let path = join a.daemons_dir (plist_filename (chars name)) in
      load (service_label (chars name)) path
        (w.write path (generate_plist a (Config.new f name "/bin/false")) s)

  abbrev pub kill_process : Signal → Result ℤ → w.tool.State → Result (Unit {0}) × w.tool.State
  kill_process sig (err e) s = (err e, s)
  kill_process sig (ok pid) s = (
    checked PlatformError.signal "kill failed: " (w.tool.run (kill_args sig pid) s).0 >>= λ out.
        ok tt,
    (w.tool.run (kill_args sig pid) s).1,
  )

  unfoldable pub send_signal :
      DaemonHandle → Signal → w.tool.State → Result (Unit {0}) × w.tool.State
  unfolding pid_of_listing signal_number
  send_signal h sig s =
      let listed =
        output PlatformError.signal "launchctl list failed: " (w.tool.run (list_args h.id) s).0 in
      if is_for mac_os h
      then kill_process sig
          (listed >>= λ out.
            ok_or (PlatformError.signal (text "service not running")) (pid_of_listing out))
          (w.tool.run (list_args h.id) s).1
      else (err (PlatformError.signal (text "not a launchd handle")), s)

  unfoldable pub status : DaemonHandle → w.tool.State → Result DaemonStatus × w.tool.State
  unfolding parse_status
  status h s =
      let args = chars "launchctl" ∷ chars "list" ∷ [] in
      if is_for mac_os h
      then (
        output PlatformError.status "launchctl list failed: " (w.tool.run args s).0 >>= λ out.
            ok (parse_status out h.id),
        (w.tool.run args s).1,
      )
      else (err (PlatformError.status (text "not a launchd handle")), s)

  unfoldable pub attach_tracer : DaemonHandle → w.tool.State → Result TracerHandle × w.tool.State
  unfolding pid_of_listing
  attach_tracer h s =
      if is_for mac_os h
      then (
        output PlatformError.tracer "launchctl list failed: " (w.tool.run (list_args h.id) s).0
            >>= λ out.
                ok_or (PlatformError.tracer (text "service not running")) (pid_of_listing out)
                >>= λ pid. ok record { platform = mac_os; id = chars "ptrace:" ++ signed_text pid },
        (w.tool.run (list_args h.id) s).1,
      )
      else (err (PlatformError.tracer (text "not a launchd handle")), s)
