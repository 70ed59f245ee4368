-- ===== src/Analysis/Sums.antt =====
-- What the counters hold after several reports.
use policyai.Prelude.{
  ℕ, ◌+◌, ◌≡◌, refl, ◌∙◌, Bool, true, false, not, ◌&&◌, Option, none, some, List, [], ◌∷◌, length,
  arith, ◌==◌, if◌then◌else◌, Text,
}
use policyai.Json.{Platform}
use policyai.Usage.{Claudius}
use policyai.Analysis.{
  Metrics, ConfusionMatrix, no_predictions, add_prediction, RegressionAnalysis, no_reports,
  count_error, add_report, FieldMatchAccuracyMatrix, add_match_report,
}

-- how many elements pass the test
abbrev pub count {ℓ} : {A : Type ℓ} → (A → Bool) → List A → ℕ
count f [] = 0
count f (a ∷ l) = let rest = count f l in if f a then rest + 1 else rest

-- the sum of a quantity of the elements
abbrev pub total {ℓ} : {A : Type ℓ} → (A → ℕ) → List A → ℕ
total f [] = 0
total f (a ∷ l) = f a + total f l

abbrev pub failed : Option Text → Bool
failed none = false
failed (some _) = true

count_error-failed :
    (e : Option Text) (n rest : ℕ)
    → count_error e n + rest ≡ n + (if failed e then rest + 1 else rest)
count_error-failed none n rest = refl
count_error-failed (some _) n rest = omega arith

-- A prediction adds one to one of the four counters.
add_prediction-count :
    (b p : Bool) (c : ConfusionMatrix) (w x y z : ℕ)
    → ((add_prediction b p c).true_positive + w ≡ c.true_positive + (if b && p then w + 1 else w))
      × ((add_prediction b p c).false_positive + x
          ≡ c.false_positive + (if not b && p then x + 1 else x))
      × ((add_prediction b p c).false_negative + y
          ≡ c.false_negative + (if b && not p then y + 1 else y))
      × ((add_prediction b p c).true_negative + z
          ≡ c.true_negative + (if not b && not p then z + 1 else z))
unfolding add_prediction
add_prediction-count true true c w x y z = (omega arith, omega arith, omega arith, omega arith)
add_prediction-count true false c w x y z = (omega arith, omega arith, omega arith, omega arith)
add_prediction-count false true c w x y z = (omega arith, omega arith, omega arith, omega arith)
add_prediction-count false false c w x y z = (omega arith, omega arith, omega arith, omega arith)

module _ {P : Platform} {C : Claudius P} where
  -- the loop of the programs over the metrics, each with the number of expected fields
  abbrev pub add_match_reports :
      List (Metrics C × ℕ) → FieldMatchAccuracyMatrix → FieldMatchAccuracyMatrix
  add_match_reports [] a = a
  add_match_reports ((m, n) ∷ ms) a = add_match_reports ms (add_match_report m n a)

  abbrev pub add_reports : List (Metrics C) → RegressionAnalysis → RegressionAnalysis
  add_reports [] a = a
  add_reports (m ∷ ms) a = add_reports ms (add_report m a)

  -- Did the baseline, or policyai, match all the expected fields?
  abbrev pub baseline_correct : Metrics C × ℕ → Bool
  baseline_correct (m, n) = m.baseline_fields_matched == n

  abbrev pub policyai_correct : Metrics C × ℕ → Bool
  policyai_correct (m, n) = m.policyai_fields_matched == n

  -- the matrix has counted so many more
  pub record Counted (ms : List (Metrics C × ℕ)) (c c' : ConfusionMatrix) : Type 0 where
    pub both :
        c'.true_positive
        ≡ c.true_positive + count (λ m. baseline_correct m && policyai_correct m) ms
    pub policyai_only :
        c'.false_positive
        ≡ c.false_positive + count (λ m. not (baseline_correct m) && policyai_correct m) ms
    pub baseline_only :
        c'.false_negative
        ≡ c.false_negative + count (λ m. baseline_correct m && not (policyai_correct m)) ms
    pub neither :
        c'.true_negative
        ≡ c.true_negative + count (λ m. not (baseline_correct m) && not (policyai_correct m)) ms

  add_match_reports_from :
      (ms : List (Metrics C × ℕ)) (a : FieldMatchAccuracyMatrix)
      → Counted ms a.confusion_matrix (add_match_reports ms a).confusion_matrix
  unfolding add_match_report add_prediction
  add_match_reports_from [] a = record {
    both = omega arith;
    policyai_only = omega arith;
    baseline_only = omega arith;
    neither = omega arith;
  }
  add_match_reports_from ((m, n) ∷ ms) a =
      let ih = add_match_reports_from ms (add_match_report m n a) in
      let step =
        add_prediction-count (m.baseline_fields_matched == n) (m.policyai_fields_matched == n)
          a.confusion_matrix (count (λ q. baseline_correct q && policyai_correct q) ms)
          (count (λ q. not (baseline_correct q) && policyai_correct q) ms)
          (count (λ q. baseline_correct q && not (policyai_correct q)) ms)
          (count (λ q. not (baseline_correct q) && not (policyai_correct q)) ms) in
      record {
        both = ih.both ∙ step.0;
        policyai_only = ih.policyai_only ∙ step.1;
        baseline_only = ih.baseline_only ∙ step.2;
        neither = ih.neither ∙ step.3;
      }

  -- Over any list of reports, a new accuracy matrix counts as true positives those where both the
  -- baseline and policyai match all the expected fields, as false positives those where policyai alone
  -- does, as false negatives those where the baseline alone does, and as true negatives the others.
  pub add_match_reports_lem :
      (ms : List (Metrics C × ℕ))
      → Counted ms no_predictions
          (add_match_reports ms (record { confusion_matrix = no_predictions })).confusion_matrix
  add_match_reports_lem ms =
      add_match_reports_from ms (record { confusion_matrix = no_predictions })

  -- an analysis with the sums over the reports added
  pub record Summed (ms : List (Metrics C)) (a a' : RegressionAnalysis) : Type 0 where
    pub reports : a'.total_reports ≡ a.total_reports + length ms
    pub policyai_total_fields_matched :
        a'.policyai_total_fields_matched
        ≡ a.policyai_total_fields_matched + total (λ m. m.policyai_fields_matched) ms
    pub baseline_total_fields_matched :
        a'.baseline_total_fields_matched
        ≡ a.baseline_total_fields_matched + total (λ m. m.baseline_fields_matched) ms
    pub policyai_total_wrong_values :
        a'.policyai_total_wrong_values
        ≡ a.policyai_total_wrong_values + total (λ m. m.policyai_fields_with_wrong_value) ms
    pub baseline_total_wrong_values :
        a'.baseline_total_wrong_values
        ≡ a.baseline_total_wrong_values + total (λ m. m.baseline_fields_with_wrong_value) ms
    pub policyai_total_missing_fields :
        a'.policyai_total_missing_fields
        ≡ a.policyai_total_missing_fields + total (λ m. m.policyai_fields_missing) ms
    pub baseline_total_missing_fields :
        a'.baseline_total_missing_fields
        ≡ a.baseline_total_missing_fields + total (λ m. m.baseline_fields_missing) ms
    pub policyai_total_extra_fields :
        a'.policyai_total_extra_fields
        ≡ a.policyai_total_extra_fields + total (λ m. m.policyai_extra_fields) ms
    pub baseline_total_extra_fields :
        a'.baseline_total_extra_fields
        ≡ a.baseline_total_extra_fields + total (λ m. m.baseline_extra_fields) ms
    pub policyai_total_duration_ms :
        a'.policyai_total_duration_ms
        ≡ a.policyai_total_duration_ms + total (λ m. m.policyai_apply_duration_ms) ms
    pub baseline_total_duration_ms :
        a'.baseline_total_duration_ms
        ≡ a.baseline_total_duration_ms + total (λ m. m.baseline_apply_duration_ms) ms
    pub policyai_errors :
        a'.policyai_errors ≡ a.policyai_errors + count (λ m. failed m.policyai_error) ms
    pub baseline_errors :
        a'.baseline_errors ≡ a.baseline_errors + count (λ m. failed m.baseline_error) ms

  add_reports_from :
      (ms : List (Metrics C)) (a : RegressionAnalysis) → Summed ms a (add_reports ms a)
  unfolding add_report
  add_reports_from [] a = record {
    reports = omega arith;
    policyai_total_fields_matched = omega arith;
    baseline_total_fields_matched = omega arith;
    policyai_total_wrong_values = omega arith;
    baseline_total_wrong_values = omega arith;
    policyai_total_missing_fields = omega arith;
    baseline_total_missing_fields = omega arith;
    policyai_total_extra_fields = omega arith;
    baseline_total_extra_fields = omega arith;
    policyai_total_duration_ms = omega arith;
    baseline_total_duration_ms = omega arith;
    policyai_errors = omega arith;
    baseline_errors = omega arith;
  }
  add_reports_from (m ∷ ms) a =
      let ih = add_reports_from ms (add_report m a) in
      record {
        reports = omega (arith, ih.reports);
        policyai_total_fields_matched = omega (arith, ih.policyai_total_fields_matched);
        baseline_total_fields_matched = omega (arith, ih.baseline_total_fields_matched);
        policyai_total_wrong_values = omega (arith, ih.policyai_total_wrong_values);
        baseline_total_wrong_values = omega (arith, ih.baseline_total_wrong_values);
        policyai_total_missing_fields = omega (arith, ih.policyai_total_missing_fields);
        baseline_total_missing_fields = omega (arith, ih.baseline_total_missing_fields);
        policyai_total_extra_fields = omega (arith, ih.policyai_total_extra_fields);
        baseline_total_extra_fields = omega (arith, ih.baseline_total_extra_fields);
        policyai_total_duration_ms = omega (arith, ih.policyai_total_duration_ms);
        baseline_total_duration_ms = omega (arith, ih.baseline_total_duration_ms);
        policyai_errors =
            ih.policyai_errors
            ∙ count_error-failed m.policyai_error a.policyai_errors
                (count (λ q. failed q.policyai_error) ms);
        baseline_errors =
            ih.baseline_errors
            ∙ count_error-failed m.baseline_error a.baseline_errors
                (count (λ q. failed q.baseline_error) ms);
      }

  -- Over any list of reports, a new analysis counts the reports, and those with an error of policyai
  -- and of the baseline, and sums the fields that each matched, got wrong, missed or added, and the
  -- durations.
  pub add_reports_lem : (ms : List (Metrics C)) → Summed ms no_reports (add_reports ms no_reports)
  add_reports_lem ms = add_reports_from ms no_reports
