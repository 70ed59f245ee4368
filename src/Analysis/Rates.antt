-- ===== src/Analysis/Rates.antt =====
-- The rates and averages of src/analysis.rs.
use policyai.Prelude.{ℕ, ◌+◌, ◌≡◌, refl, ◌==◌, if◌then◌else◌}
use policyai.Json.{Platform}
use policyai.Analysis.{ConfusionMatrix, RegressionAnalysis}
use policyai.Analysis.Tokens.{Division}

-- the sum of two `f64`, and the literal 2.0
pub record Sums (P : Platform) : Type 0 where
  pub add : P.F64 → P.F64 → P.F64
  pub two : P.F64

-- what was predicted for what is there, and the other way round
abbrev transposed : ConfusionMatrix → ConfusionMatrix
transposed c = record c { false_positive = c.false_negative; false_negative = c.false_positive }

module _ {P : Platform} (D : Division P) (S : Sums P) where
  -- `if whole == 0.0 { 0.0 } else { part / whole }`
  abbrev ratio : P.F64 → P.F64 → P.F64
  ratio part whole = if P.f64_eq whole D.zero_f64 then D.zero_f64 else D.divide part whole

  unfoldable precision : ConfusionMatrix → P.F64
  precision c =
      ratio (D.of_nat c.true_positive)
        (S.add (D.of_nat c.true_positive) (D.of_nat c.false_positive))

  unfoldable recall : ConfusionMatrix → P.F64
  recall c =
      ratio (D.of_nat c.true_positive)
        (S.add (D.of_nat c.true_positive) (D.of_nat c.false_negative))

  unfoldable f1_score : ConfusionMatrix → P.F64
  unfolding precision recall
  f1_score c =
      let p = precision c in
      let r = recall c in ratio (D.multiply (D.multiply S.two p) r) (S.add p r)

  unfoldable accuracy : ConfusionMatrix → P.F64
  accuracy c =
      ratio (D.of_nat (c.true_positive + c.true_negative))
        (D.of_nat (c.true_positive + c.false_positive + c.true_negative + c.false_negative))

  -- Precision and recall change places where predictions and facts do, and the F1 score stays, where
  -- the sum commutes, and so do the factors beside 2.0.
  f1_score-transposed :
      (c : ConfusionMatrix)
      → ((a b : P.F64) → S.add a b ≡ S.add b a)
      → ((a b : P.F64) → D.multiply (D.multiply S.two a) b ≡ D.multiply (D.multiply S.two b) a)
      → (precision (transposed c) ≡ recall c) × (f1_score (transposed c) ≡ f1_score c)
  unfolding f1_score precision recall
  f1_score-transposed c h k = (refl, rw (h (recall c) (precision c), k (recall c) (precision c)))

  -- a total of the reports over their number
  abbrev per_report : RegressionAnalysis → ℕ → P.F64
  per_report a n =
      if a.total_reports == 0 then D.zero_f64 else D.divide (D.of_nat n) (D.of_nat a.total_reports)

  unfoldable policyai_avg_duration_ms : RegressionAnalysis → P.F64
  policyai_avg_duration_ms a = per_report a a.policyai_total_duration_ms

  unfoldable baseline_avg_duration_ms : RegressionAnalysis → P.F64
  baseline_avg_duration_ms a = per_report a a.baseline_total_duration_ms

  unfoldable policyai_error_rate : RegressionAnalysis → P.F64
  policyai_error_rate a = per_report a a.policyai_errors

  unfoldable baseline_error_rate : RegressionAnalysis → P.F64
  baseline_error_rate a = per_report a a.baseline_errors

  unfoldable policyai_avg_fields_matched : RegressionAnalysis → P.F64
  policyai_avg_fields_matched a = per_report a a.policyai_total_fields_matched

  unfoldable baseline_avg_fields_matched : RegressionAnalysis → P.F64
  baseline_avg_fields_matched a = per_report a a.baseline_total_fields_matched
