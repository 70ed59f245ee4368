-- ===== src/Examples/Evaluations.antt =====
-- The theorems on src/bin/policyai-evaluate-policies.rs at concrete inputs.
use policyai.Prelude.{ℕ, ◌-◌, ◌/◌, text, ◌≡◌, refl, some, [], ◌∷◌, ℤ, pos, negsuc, leb}
use policyai.Json.{Map, end, entry, string, object, get}
use policyai.Json
use policyai.Json.Maps.{or_else}
use policyai.Evaluate.{Arithmetic, build_expected_with_defaults, calculate_field_metrics}
use policyai.Evaluate.Counts.{Counts, calculate_field_metrics_lem}
use policyai.Evaluate.Expected.{first_default, build_expected_with_defaults_lem}
use policyai.Examples.{naturals}
use policyai.Examples.Builders.{outage}

abbrev magnitude : ℤ → ℕ
magnitude (pos n) = n
magnitude (negsuc n) = n

abbrev pub rounded : Arithmetic naturals
rounded = record {
  zero_f64 = 0;
  tolerance = 0;
  of_i64 = magnitude;
  of_u64 = λ n. n;
  subtract = λ a b. a - b;
  divide = λ a b. a / b;
  abs = λ a. a;
  at_most = λ a b. leb a b;
}

abbrev expected : Map naturals
expected =
    entry (text "team") (string (text "ops")) (entry (text "note") (string (text "down")) end)

calculate_field_metrics_lem_example :
    Counts rounded expected (some (entry (text "team") (string (text "web")) end)) (
      calculate_field_metrics rounded expected
        (object (entry (text "team") (string (text "web")) end)))
unfolding policyai.Evaluate.as_object
calculate_field_metrics_lem_example =
    calculate_field_metrics_lem rounded expected
      (object (entry (text "team") (string (text "web")) end))

abbrev one_expected : Map naturals
one_expected = entry (text "team") (string (text "ops")) end

build_expected_with_defaults_lem_example :
    get (build_expected_with_defaults (outage ∷ []) (some (object one_expected))) (text "urgent")
    ≡ or_else (get one_expected (text "urgent")) (first_default (outage ∷ []) (text "urgent"))
unfolding Json.get
build_expected_with_defaults_lem_example =
    build_expected_with_defaults_lem (outage ∷ []) one_expected (text "urgent") (refl, tt)
