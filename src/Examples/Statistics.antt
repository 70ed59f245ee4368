-- ===== src/Examples/Statistics.antt =====
-- The theorems on src/analysis.rs at concrete inputs.
use policyai.Prelude.{
  zero, suc, refl, ◌<◌, ℕ, text, ◌≡◌, true, none, some, List, [], ◌∷◌, ◌/◌, arith, ◌≤◌, ◌+◌, ◌*◌,
  length, leb,
}
use policyai.Manager.{has}
use policyai.Analysis.{Metrics, no_predictions, no_reports}
use policyai.Analysis.Sums.{
  Counted, add_match_reports, add_match_reports_lem, Summed, add_reports, add_reports_lem,
}
use policyai.Analysis.Percentiles.{IsFloat, percentile_lem}
use policyai.Analysis.Sorted.{how_many}
use policyai.Analysis.Tokens.{
  Division, Readings, total, min, max, p50, p99, no_usage, add_usage_report, percentile_index,
  percentile,
}
use policyai.Analysis.Tokens.Bounds.{p50-p99}
use policyai.Analysis.Tokens.Lengths.{IsAligned, no_usage-IsAligned, add_usage_report-IsAligned}
use policyai.Examples.{naturals}
use policyai.Examples.Managers.{toy}

-- policyai finds two of three fields, and the baseline all of them
abbrev pub metrics : Metrics toy
metrics = record {
  policyai_fields_matched = 2;
  baseline_fields_matched = 3;
  policyai_fields_with_wrong_value = 1;
  baseline_fields_with_wrong_value = 0;
  policyai_fields_missing = 0;
  baseline_fields_missing = 0;
  policyai_extra_fields = 0;
  baseline_extra_fields = 1;
  policyai_error = none;
  baseline_error = some (text "late");
  policyai_apply_duration_ms = 20;
  baseline_apply_duration_ms = 30;
  policyai_usage = none;
  baseline_usage = none;
}

add_match_reports_lem_example :
    Counted
      ((metrics, 3) ∷ (metrics, 2) ∷ [])
      no_predictions
      (add_match_reports
        ((metrics, 3) ∷ (metrics, 2) ∷ [])
        (record { confusion_matrix = no_predictions })).confusion_matrix
add_match_reports_lem_example = add_match_reports_lem ((metrics, 3) ∷ (metrics, 2) ∷ [])

add_reports_lem_example :
    Summed (metrics ∷ metrics ∷ []) no_reports (add_reports (metrics ∷ metrics ∷ []) no_reports)
add_reports_lem_example = add_reports_lem (metrics ∷ metrics ∷ [])

abbrev durations : List ℕ
durations = 9 ∷ 4 ∷ 7 ∷ []

-- numbers in hundredths, rounded down
abbrev hundredths : Division naturals
hundredths = record {
  zero_f64 = 0;
  of_nat = λ n. n * 100;
  divide = λ a b. a * 100 / b;
  multiply = λ a b. a * b / 100;
  round = λ a. (a + 50) / 100 * 100;
  as_usize = λ a. a / 100;
}

multiplied : (a b n : ℕ) → a ≤ b → a * n ≤ b * n
multiplied a b zero l = omega arith
multiplied a b (suc n) l = omega (arith, l, multiplied a b n l)

scaled : (a b n : ℕ) → a ≤ b → a * (n * 100) / 100 ≤ b * (n * 100) / 100
scaled a b n l = omega (arith, multiplied a b n l)

hundredths-IsFloat : IsFloat hundredths
hundredths-IsFloat = record {
  of_nat_keeps = λ m n l. ground (arith, l);
  divide_keeps = λ a b l. ground (arith, l);
  divide_self = refl;
  divide_zero = refl;
  multiply_keeps = λ a b n e z l o. ground (arith, l, scaled a b n);
  multiply_one = λ n. omega arith;
  round_keeps = λ a b l. ground (arith, l);
  as_usize_keeps = λ a b l. ground (arith, l);
  round_whole = λ n l. omega arith;
}

percentile_lem_example :
    (x : ℕ) × (percentile hundredths (hundredths.of_nat 99) durations ≡ some x)
    × (has durations x ≡ true)
    × (percentile_index hundredths (hundredths.of_nat 99) 2 < 3)
    × (percentile_index hundredths (hundredths.of_nat 99) 2 + 1 ≤ how_many (λ y. leb y x) durations)
    × (3 ≤ percentile_index hundredths (hundredths.of_nat 99) 2 + how_many (λ y. leb x y) durations)
percentile_lem_example =
    percentile_lem hundredths hundredths-IsFloat 99 9 (4 ∷ 7 ∷ []) (omega arith) (omega arith)

p50-p99_example :
    (median : ℕ) × (high : ℕ) × (p50 hundredths durations ≡ some median)
    × (p99 hundredths durations ≡ some high)
    × (min durations ≤ median)
    × (median ≤ high)
    × (high ≤ max durations)
    × (length durations * min durations ≤ total durations)
    × (total durations ≤ length durations * max durations)
p50-p99_example = p50-p99 hundredths 9 (4 ∷ 7 ∷ []) hundredths-IsFloat (omega arith)

abbrev readings : Readings toy
readings = record {
  input_tokens = λ t. t;
  output_tokens = λ t. t + 1;
  cache_creation_input_tokens = λ t. none;
  cache_read_input_tokens = λ t. some t;
  as_millis = λ d. d;
}

abbrev metered : Metrics toy
metered = record metrics {
  policyai_usage = some (record { claudius_usage = some 7; wall_clock_time = 40; iterations = 2 });
  baseline_usage = some (record { claudius_usage = none; wall_clock_time = 50; iterations = 1 });
}

add_usage_report-IsAligned_example : IsAligned (add_usage_report readings metered no_usage)
add_usage_report-IsAligned_example =
    add_usage_report-IsAligned readings metered no_usage no_usage-IsAligned
