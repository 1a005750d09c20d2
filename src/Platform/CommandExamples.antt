-- ===== src/Platform/CommandExamples.antt =====
-- The theorems of the adapters that run commands, at concrete inputs (linux.rs, container.rs,
-- macos.rs, pepita.rs).
use duende.Prelude.{ℕ, ◌+◌, ◌≡◌, refl, Option, none, some, List, [], ◌∷◌, drop, arith}
use duende.Prelude.Float.{whole}
use duende.Prelude.Text.{chars, lines_from, trim_start, trim_end, is_whitespace}
use duende.Core.Config
use duende.Core.Config.{DaemonConfig}
use duende.Core.Adapters.Tool.{Tool, finished}
use duende.Platform.Linux.{generate_unit_file}
use duende.Platform.Linux.Unit.{IsPlain}
use duende.Platform.Linux.Reader.{directives, wanted, directives-generate_unit_file}
use duende.Platform.Container
use duende.Platform.Container.{build_run_args, container_name, image, texts}
use duende.Platform.Container.Arguments.{read_run, run_options, read_run-build_run_args}
use duende.Platform.MacOs.{status_of, status_of_lines}
use duende.Platform.MacOs.Listing.{Row, lines_of, status_of_lines-row_own}
use duende.Platform.Pepita
use duende.Platform.Pepita.{spawn, with_vcpus, with_memory_mb}
use duende.Platform.Pepita.Defaults.{spawn-with_memory_mb}

abbrev web : DaemonConfig (Option ℕ)
unfolding Config.new
web = record (Config.new whole "web" "/bin/web") {
  description = "a web server";
  args = "--port" ∷ "80" ∷ [];
  env = ("MODE", "fast") ∷ [];
  user = some "www";
}

abbrev quota_of : Option ℕ → ℕ
quota_of none = 0
quota_of (some n) = n

web-IsPlain : IsPlain (Option ℕ) web
unfolding Config.new
web-IsPlain = record {
  description_plain = ground arith;
  binary_path_plain = ground arith;
  args_plain = ground arith;
  working_dir_plain = tt;
  user_plain = ground arith;
  group_plain = tt;
  env_plain = ground arith;
}

directives-generate_unit_file_example :
    directives [] (lines_from [] (generate_unit_file whole quota_of web))
    ≡ wanted whole quota_of web
directives-generate_unit_file_example = directives-generate_unit_file whole quota_of web web-IsPlain

abbrev cpus_of : Option ℕ → List ℕ
cpus_of q = chars "0.50"

abbrev base_name : List ℕ → Option (List ℕ)
base_name path = some (chars "web")

read_run-build_run_args_example :
    read_run (drop 1 (build_run_args whole cpus_of base_name Container.new web)) ≡ (
      (chars "--name", container_name (chars web.name)) ∷ run_options whole cpus_of base_name web,
      image whole cpus_of base_name Container.new web ∷ texts web.args,
    )
read_run-build_run_args_example =
    read_run-build_run_args whole cpus_of base_name Container.new web refl

abbrev longer : Row
longer = record { pid = chars "12"; code = chars "0"; label = chars "com.duende.web2" }

abbrev own : Row
own = record { pid = chars "-"; code = chars "1"; label = chars "com.duende.web" }

status_of_lines-row_own_example :
    status_of_lines (chars "com.duende.web") (lines_of (longer ∷ own ∷ []))
    ≡ status_of (chars "-") (chars "1")
unfolding trim_start trim_end is_whitespace
status_of_lines-row_own_example =
    status_of_lines-row_own (longer ∷ []) [] own (ground arith) (ground arith) (ground arith)

abbrev quiet : Tool
quiet = record { State = ℕ; run = λ args s. (finished (some 0) [] [], s + 1) }

spawn-with_memory_mb_example :
    spawn quiet whole quota_of (with_memory_mb (with_vcpus Pepita.new 4) 2048) "web" 3 0
    ≡ spawn quiet whole quota_of Pepita.new "web" 3 0
spawn-with_memory_mb_example = spawn-with_memory_mb whole quota_of quiet Pepita.new 4 2048 3 "web" 0
