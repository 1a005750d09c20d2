-- ===== src/Policy/Gate/Laws.antt =====
-- A gate passes exactly the analyses within its thresholds, and reports each one that is exceeded
-- (gate.rs).
use duende.Prelude.{
  ℕ, ◌+◌, ◌≤◌, ◌<◌, ◌≡◌, ◌↔◌, Bool, true, false, List, [], length, arith, ltb, All,
}
use duende.Prelude.Float.{F64}
use duende.Policy.Gate.{
  GateConfig, QualityAnalysis, QualityViolation, complexity, technical_debt, dead_code,
  quality_score, GateResult, gate_passed, gate_failed, passed, analyze,
}

abbrev pub violations : {F : Type 0} → GateResult F → List (QualityViolation F)
violations gate_passed = []
violations (gate_failed vs) = vs

abbrev pub one_if : Bool → ℕ
one_if true = 1
one_if false = 0

module _ (f : F64) where
  -- What each violation says: a value beyond its threshold.
  abbrev pub Exceeds : QualityViolation f.Carrier → Type 0
  Exceeds (complexity actual threshold l) = threshold < actual
  Exceeds (technical_debt n tolerance) = tolerance < n
  Exceeds (dead_code percent threshold) = f.lt threshold percent ≡ true
  Exceeds (quality_score score minimum) = f.lt score minimum ≡ true

  -- An analysis passes exactly when its complexity and its count of admitted debt are at most the
  -- thresholds, its dead code does not compare as above the maximum, and its score does not
  -- compare as below the minimum.
  pub analyze-passed :
      (c : GateConfig f.Carrier) (a : QualityAnalysis f.Carrier)
      → (passed (analyze f c a) ≡ true) ↔ (
          (a.max_complexity ≤ c.max_complexity)
          × (a.satd_count ≤ c.satd_tolerance)
          × (f.lt c.dead_code_max_percent a.dead_code_percent ≡ false)
          × (f.lt a.quality_score c.min_quality_score ≡ false))
  unfolding passed analyze
  analyze-passed c a = ground arith

  -- The violations reported are as many as thresholds exceeded, and each is one of a value beyond
  -- its threshold.
  pub analyze-violations :
      (c : GateConfig f.Carrier) (a : QualityAnalysis f.Carrier)
      → (length (violations (analyze f c a))
          ≡ one_if (ltb c.max_complexity a.max_complexity)
            + one_if (ltb c.satd_tolerance a.satd_count)
            + one_if (f.lt c.dead_code_max_percent a.dead_code_percent)
            + one_if (f.lt a.quality_score c.min_quality_score))
        × All Exceeds (violations (analyze f c a))
  unfolding analyze
  analyze-violations c a = ground arith
