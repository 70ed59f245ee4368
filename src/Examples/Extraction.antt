-- ===== src/Examples/Extraction.antt =====
-- The theorems on src/bin/policyai-extract-regressions.rs at concrete inputs, and a run in which
-- the order of an array matters.
use policyai.Prelude.{◌+◌, ◌-◌, ◌*◌, ◌/◌, ◌==◌, text, ◌≡◌, refl, true, false, none, some, [], ◌∷◌}
use policyai.Json.{number, array, of_list, to_list, Values}
use policyai.Evaluate.{Arithmetic}
use policyai.Data.Points.{EvaluationReport}
use policyai.Regressions.{Args, Comparison, count, values_match_recursive, is_regression}
use policyai.Regressions.Options.{values_match_recursive-exact, is_regression-exact}
use policyai.Regressions.Pairs.{Partners, Matches, values_match_recursive-Partners}
use policyai.Examples.{naturals, blank}
use policyai.Examples.Evaluations.{rounded}
use policyai.Examples.Managers.{toy}
use policyai.Examples.Statistics.{metrics}

-- differences without their sign
abbrev distances : Arithmetic naturals
distances = record rounded { subtract = λ a b. (a - b) + (b - a) }

abbrev thousandths : Comparison naturals
thousandths = record {
  is_whitespace = λ c. c == b' ';
  multiply = λ a b. a * b / 1000;
  thousandth = 1;
}

abbrev unordered : Args
unordered = record {
  include_baseline_failures = true;
  ignore_whitespace = true;
  ignore_array_order = true;
}

abbrev one_way : Values naturals
one_way = of_list (number 99950 ∷ number 100050 ∷ [])

abbrev other_way : Values naturals
other_way = of_list (number 100050 ∷ number 99950 ∷ [])

abbrev wanted : Values naturals
wanted = of_list (number 100000 ∷ number 100100 ∷ [])

-- The same numbers match in one order and not in the other, although order is ignored: the number
-- that comes first takes the only partner of the other.
order_matters :
    (values_match_recursive distances thousandths unordered (array one_way) (array wanted) ≡ true)
    × (values_match_recursive distances thousandths unordered (array other_way) (array wanted)
        ≡ false)
unfolding values_match_recursive
order_matters = (refl, refl)

abbrev evaluated : EvaluationReport toy
evaluated = record {
  input = record {
    text = text "two numbers";
    policies = [];
    expected = some (array wanted);
    conflicts = none;
  };
  metrics = metrics;
  report = blank;
  output = array one_way;
  baseline = none;
}

is_regression-exact_example : is_regression distances thousandths evaluated unordered ≡ false
unfolding values_match_recursive
is_regression-exact_example =
    is_regression-exact distances thousandths unordered evaluated (array wanted) refl refl

values_match_recursive-exact_example :
    values_match_recursive distances thousandths unordered (array one_way) (array wanted) ≡ true
unfolding values_match_recursive
values_match_recursive-exact_example =
    values_match_recursive-exact distances thousandths unordered (array one_way) (array wanted) refl

values_match_recursive-Partners_example :
    (count one_way ≡ count wanted)
    × Partners (Matches distances thousandths unordered) (to_list one_way) (to_list wanted)
unfolding values_match_recursive
values_match_recursive-Partners_example =
    values_match_recursive-Partners distances thousandths unordered one_way wanted refl refl
