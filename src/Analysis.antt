-- ===== src/Analysis.antt =====
-- src/analysis.rs and the metrics of src/data.rs: what is counted over the reports of an evaluation.
-- The averages and rates are in Analysis/Rates.
pub mod Sums
pub mod Sorted
pub mod Percentiles
pub mod Tokens
mod Rates
use policyai.Prelude.{
  ℕ, ◌+◌, ◌-◌, Text, Bool, true, false, Option, none, some, List, [], ◌∷◌, length, get_elem?, ltb,
  ◌==◌, if◌then◌else◌,
}
use policyai.Json.{Platform}
use policyai.Usage.{Claudius, Usage}

-- `Metrics` of src/data.rs
pub record Metrics {P : Platform} (C : Claudius P) : Type 0 where
  pub policyai_fields_matched : ℕ
  pub baseline_fields_matched : ℕ
  pub policyai_fields_with_wrong_value : ℕ
  pub baseline_fields_with_wrong_value : ℕ
  pub policyai_fields_missing : ℕ
  pub baseline_fields_missing : ℕ
  pub policyai_extra_fields : ℕ
  pub baseline_extra_fields : ℕ
  pub policyai_error : Option Text
  pub baseline_error : Option Text
  pub policyai_apply_duration_ms : ℕ
  pub baseline_apply_duration_ms : ℕ
  pub policyai_usage : Option (Usage C)
  pub baseline_usage : Option (Usage C)

pub record ConfusionMatrix : Type 0 where
  pub true_positive : ℕ
  pub false_positive : ℕ
  pub true_negative : ℕ
  pub false_negative : ℕ

-- `ConfusionMatrix::new`
abbrev pub no_predictions : ConfusionMatrix
no_predictions = record {
  true_positive = 0;
  false_positive = 0;
  true_negative = 0;
  false_negative = 0;
}

unfoldable pub add_prediction : Bool → Bool → ConfusionMatrix → ConfusionMatrix
add_prediction true true c = record c { true_positive = c.true_positive + 1 }
add_prediction true false c = record c { false_negative = c.false_negative + 1 }
add_prediction false true c = record c { false_positive = c.false_positive + 1 }
add_prediction false false c = record c { true_negative = c.true_negative + 1 }

pub record RegressionAnalysis : Type 0 where
  pub total_reports : ℕ
  pub policyai_total_fields_matched : ℕ
  pub baseline_total_fields_matched : ℕ
  pub policyai_total_wrong_values : ℕ
  pub baseline_total_wrong_values : ℕ
  pub policyai_total_missing_fields : ℕ
  pub baseline_total_missing_fields : ℕ
  pub policyai_total_extra_fields : ℕ
  pub baseline_total_extra_fields : ℕ
  pub policyai_errors : ℕ
  pub baseline_errors : ℕ
  pub policyai_total_duration_ms : ℕ
  pub baseline_total_duration_ms : ℕ

-- `RegressionAnalysis::new`
abbrev pub no_reports : RegressionAnalysis
no_reports = record {
  total_reports = 0;
  policyai_total_fields_matched = 0;
  baseline_total_fields_matched = 0;
  policyai_total_wrong_values = 0;
  baseline_total_wrong_values = 0;
  policyai_total_missing_fields = 0;
  baseline_total_missing_fields = 0;
  policyai_total_extra_fields = 0;
  baseline_total_extra_fields = 0;
  policyai_errors = 0;
  baseline_errors = 0;
  policyai_total_duration_ms = 0;
  baseline_total_duration_ms = 0;
}

-- `if error.is_some() { errors += 1 }`
abbrev pub count_error : Option Text → ℕ → ℕ
count_error none errors = errors
count_error (some _) errors = errors + 1

pub record FieldMatchAccuracyMatrix : Type 0 where
  pub confusion_matrix : ConfusionMatrix

module _ {P : Platform} {C : Claudius P} where
  -- `RegressionAnalysis::add_report`
  unfoldable pub add_report : Metrics C → RegressionAnalysis → RegressionAnalysis
  add_report m a = record {
    total_reports = a.total_reports + 1;
    policyai_total_fields_matched = a.policyai_total_fields_matched + m.policyai_fields_matched;
    baseline_total_fields_matched = a.baseline_total_fields_matched + m.baseline_fields_matched;
    policyai_total_wrong_values =
        a.policyai_total_wrong_values + m.policyai_fields_with_wrong_value;
    baseline_total_wrong_values =
        a.baseline_total_wrong_values + m.baseline_fields_with_wrong_value;
    policyai_total_missing_fields = a.policyai_total_missing_fields + m.policyai_fields_missing;
    baseline_total_missing_fields = a.baseline_total_missing_fields + m.baseline_fields_missing;
    policyai_total_extra_fields = a.policyai_total_extra_fields + m.policyai_extra_fields;
    baseline_total_extra_fields = a.baseline_total_extra_fields + m.baseline_extra_fields;
    policyai_errors = count_error m.policyai_error a.policyai_errors;
    baseline_errors = count_error m.baseline_error a.baseline_errors;
    policyai_total_duration_ms = a.policyai_total_duration_ms + m.policyai_apply_duration_ms;
    baseline_total_duration_ms = a.baseline_total_duration_ms + m.baseline_apply_duration_ms;
  }

  -- `FieldMatchAccuracyMatrix::add_report`
  unfoldable pub add_match_report :
      Metrics C → ℕ → FieldMatchAccuracyMatrix → FieldMatchAccuracyMatrix
  unfolding add_prediction
  add_match_report m expected_field_count a = record a {
    confusion_matrix =
        add_prediction (m.baseline_fields_matched == expected_field_count)
          (m.policyai_fields_matched == expected_field_count) a.confusion_matrix;
  }
