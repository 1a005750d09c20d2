-- ===== src/Policy/Gate.antt =====
-- crates/duende-policy/src/gate.rs: thresholds on the quality of the code. Percentages and scores
-- are `f64`, by the interface `F64`.
pub mod Laws
use duende.Prelude.{ℕ, Bool, true, false, Option, List, [], ◌∷◌, ◌++◌, String, ltb, if◌then◌else◌}
use duende.Prelude.Float.{F64}

pub record GateConfig (F : Type 0) : Type 0 where
  pub max_complexity : ℕ  -- u32
  pub satd_tolerance : ℕ  -- u32
  pub dead_code_max_percent : F
  pub min_quality_score : F

pub record QualityAnalysis (F : Type 0) : Type 0 where
  pub max_complexity : ℕ  -- u32
  pub complexity_hotspot : Option String
  pub satd_count : ℕ  -- u32
  pub dead_code_percent : F
  pub quality_score : F

pub data QualityViolation (F : Type 0) : Type 0 where
  complexity : ℕ → ℕ → Option String → QualityViolation F
  technical_debt : ℕ → ℕ → QualityViolation F
  dead_code : F → F → QualityViolation F
  quality_score : F → F → QualityViolation F

pub data GateResult (F : Type 0) : Type 0 where
  gate_passed : GateResult F
  gate_failed : List (QualityViolation F) → GateResult F

unfoldable pub passed : {F : Type 0} → GateResult F → Bool
passed gate_passed = true
passed (gate_failed vs) = false

-- `if test { violations.push(v) }`.
abbrev pub push_if {ℓ} : {A : Type ℓ} → Bool → A → List A → List A
push_if true v vs = vs ++ (v ∷ [])
push_if false v vs = vs

abbrev pub result_of : {F : Type 0} → List (QualityViolation F) → GateResult F
result_of [] = gate_passed
result_of (v ∷ vs) = gate_failed (v ∷ vs)

module _ (f : F64) where
  -- `GateConfig::default`.
  unfoldable pub default_config : GateConfig f.Carrier
  default_config = record {
    max_complexity = 20;
    satd_tolerance = 0;
    dead_code_max_percent = f.of_nat 10;
    min_quality_score = f.of_nat 80;
  }

  -- The source always returns `Ok`, so the result alone.
  unfoldable pub analyze : GateConfig f.Carrier → QualityAnalysis f.Carrier → GateResult f.Carrier
  analyze c a =
      let v₁ =
        push_if (ltb c.max_complexity a.max_complexity)
          (complexity a.max_complexity c.max_complexity a.complexity_hotspot) [] in
      let v₂ =
        push_if (ltb c.satd_tolerance a.satd_count) (technical_debt a.satd_count c.satd_tolerance)
          v₁ in
      let v₃ =
        push_if (f.lt c.dead_code_max_percent a.dead_code_percent)
          (dead_code a.dead_code_percent c.dead_code_max_percent) v₂ in
      let v₄ =
        push_if (f.lt a.quality_score c.min_quality_score)
          (quality_score a.quality_score c.min_quality_score) v₃ in
      result_of v₄
