-- ===== src/Core/Adapters/Launchd.antt =====
-- crates/duende-core/src/adapters/launchd.rs: services of macOS's launchd, by property lists on disk
-- and the tool `launchctl`.
pub mod Operations
pub mod Listing
pub mod Files
use duende.Prelude.{
  ℕ, zero, Bool, true, false, not, Option, none, some, List, [], ◌∷◌, ◌++◌, ◌==◌, if◌then◌else◌,
  u32_mod,
}
use duende.Prelude.Text.{chars, same_text, contains, trim, join, lines_from, split_whitespace}
use duende.Prelude.Decimal.{to_string, parse}
use duende.Core.Types.{
  ℤ, pos, DaemonStatus, running, stopped, failed, exit_code, Signal, hup, int, quit, term, kill,
  usr1, usr2, stop, cont,
}
use duende.Core.Adapters.Tool.{replace, parse_i32}

pub data LaunchdDomain : Type 0 where
  user system : LaunchdDomain

pub record LaunchdAdapter : Type 0 where
  pub plist_dir : List ℕ
  pub domain : LaunchdDomain

-- `uid` is the user's number.
abbrev pub target : ℕ → LaunchdDomain → List ℕ
target uid user = chars "gui/" ++ to_string uid
target uid system = chars "system"

-- `home` is the user's directory, if there is one.
abbrev pub agents_dir : Option (List ℕ) → List ℕ
agents_dir none = chars "~/Library/LaunchAgents"
agents_dir (some home) = join home (chars "Library/LaunchAgents")

abbrev pub for_user : Option (List ℕ) → LaunchdAdapter
for_user home = record { plist_dir = agents_dir home; domain = user }

abbrev pub for_system : LaunchdAdapter
for_system = record { plist_dir = chars "/Library/LaunchDaemons"; domain = system }

abbrev pub with_plist_dir : List ℕ → LaunchdDomain → LaunchdAdapter
with_plist_dir plist_dir domain = record { plist_dir = plist_dir; domain = domain }

unfoldable pub service_label : List ℕ → List ℕ
unfolding replace
service_label daemon_name = chars "com.duende." ++ replace 95 45 (replace 32 45 daemon_name)

abbrev pub plist_path : LaunchdAdapter → List ℕ → List ℕ
plist_path a label = join a.plist_dir (label ++ chars ".plist")

-- The property list before the label, before the program, and before each use of the name.
abbrev pub plist_head : List ℕ
plist_head =
    chars "<?xml version=\"1.0\" encoding=\"UTF-8\"?>\n"
    ++ (chars "<!DOCTYPE plist PUBLIC \"-//Apple//DTD PLIST 1.0//EN\" "
        ++ (chars "\"http://www.apple.com/DTDs/PropertyList-1.0.dtd\">\n"
            ++ chars "<plist version=\"1.0\">\n<dict>\n    <key>Label</key>\n    <string>"))

abbrev pub plist_arguments : List ℕ
plist_arguments = chars "</string>\n    <key>ProgramArguments</key>\n    <array>\n        <string>"

abbrev pub plist_output : List ℕ
plist_output =
    chars "</string>\n    </array>\n    <key>RunAtLoad</key>\n    <true/>\n"
    ++ (chars "    <key>KeepAlive</key>\n    <dict>\n        <key>SuccessfulExit</key>\n"
        ++ (chars "        <false/>\n    </dict>\n    <key>ThrottleInterval</key>\n"
            ++ (chars "    <integer>5</integer>\n    <key>StandardOutPath</key>\n"
                ++ chars "    <string>/tmp/duende-")))

abbrev pub plist_errors : List ℕ
plist_errors = chars ".out.log</string>\n    <key>StandardErrorPath</key>\n    <string>/tmp/duende-"

abbrev pub plist_end : List ℕ
plist_end = chars ".err.log</string>\n</dict>\n</plist>\n"

unfoldable pub generate_plist : List ℕ → List ℕ → List ℕ → List ℕ
generate_plist label daemon_name program =
    plist_head
    ++ (label
        ++ (plist_arguments
            ++ (program
                ++ (plist_output
                    ++ (daemon_name ++ (plist_errors ++ (daemon_name ++ plist_end)))))))

-- `split` at a character: one part at least.
unfoldable pub split_from : ℕ → List ℕ → List ℕ → List (List ℕ)
split_from at begun [] = begun ∷ []
split_from at begun (c ∷ cs) =
    let fresh = split_from at [] cs in
    let longer = split_from at (begun ++ (c ∷ [])) cs in if c == at then begun ∷ fresh else longer

-- A code other than 0 is a failure.
abbrev pub exit_status : Option ℤ → DaemonStatus
exit_status none = stopped
exit_status (some (pos zero)) = stopped
exit_status (some code) = failed (exit_code code)

abbrev pub of_columns : List (List ℕ) → Option DaemonStatus
of_columns (pid ∷ code ∷ more) =
    some (if same_text (trim pid) (chars "-") then exit_status (parse_i32 (trim code)) else running)
of_columns _ = none

-- The first line that speaks of the label and has two columns (9 is a tab).
unfoldable pub status_of_lines : List ℕ → List (List ℕ) → DaemonStatus
status_of_lines label [] = stopped
status_of_lines label (line ∷ lines) =
    let later = status_of_lines label lines in
    if contains label line
    then elim (of_columns (split_from 9 [] line)) [ none ↦ later | some status ↦ status ]
    else later

unfoldable pub parse_status : List ℕ → List ℕ → DaemonStatus
unfolding status_of_lines lines_from
parse_status output label = status_of_lines label (lines_from [] output)

unfoldable pub signal_number : Signal → ℕ
signal_number term = 15
signal_number kill = 9
signal_number int = 2
signal_number quit = 3
signal_number hup = 1
signal_number usr1 = 30
signal_number usr2 = 31
signal_number stop = 17
signal_number cont = 19

abbrev pub find_line : List (List ℕ) → Option (List ℕ)
find_line [] = none
find_line (line ∷ lines) =
    let later = find_line lines in if contains (chars "PID") line then some line else later

abbrev pub last : List (List ℕ) → Option (List ℕ)
last [] = none
last (w ∷ []) = some w
last (w ∷ v ∷ ws) = last (v ∷ ws)

abbrev pub parse_word : Option (List ℕ) → Option ℕ
parse_word none = none
parse_word (some word) = parse u32_mod word

abbrev pub pid_of_line : Option (List ℕ) → Option ℕ
pid_of_line none = none
pid_of_line (some line) = parse_word (last (split_whitespace line))

unfoldable pub pid_of_listing : List ℕ → Option ℕ
unfolding lines_from
pid_of_listing output = pid_of_line (find_line (lines_from [] output))
