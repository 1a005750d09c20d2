-- ===== src/Policy/Examples.antt =====
-- The theorems of the gates at concrete inputs (gate.rs, jidoka.rs).
use duende.Prelude.{true, none, some, [], ◌∷◌}
use duende.Prelude.Float.{whole}
use duende.Policy.Gate
use duende.Policy.Gate.{GateConfig, QualityAnalysis, analyze}
use duende.Policy.Jidoka.{Evidence, JidokaViolation, JidokaGate, timeout, check}
use duende.Policy.Jidoka.Laws.{found, reported, Judged, check_lem}

abbrev config : GateConfig whole.Carrier
unfolding Gate.default_config
config = Gate.default_config whole

abbrev analysis : QualityAnalysis whole.Carrier
analysis = record {
  max_complexity = 25;
  complexity_hotspot = some "main";
  satd_count = 0;
  dead_code_percent = some 3;
  quality_score = some 70;
}

abbrev no_item : Evidence
no_item = record { items = [] }

abbrev slow : JidokaViolation
slow = record { check_name = "latency"; kind = timeout; description = "late" }

abbrev gate : JidokaGate
gate = record {
  checks =
      record { verify = λ e. none; name = "quiet" }
      ∷ record { verify = λ e. some slow; name = "latency" }
      ∷ [];
  stop_on_first = true;
}

check_lem_example : Judged (reported true (found no_item gate.checks)) (check gate no_item)
check_lem_example = check_lem gate no_item
