-- ===== src/Examples.antt =====
-- The theorems at concrete inputs, and runs of the program on them. Here is what they share: a
-- platform whose numbers are the natural numbers, and two reports.
pub mod Values
pub mod Builders
pub mod Managers
pub mod Surveys
pub mod Statistics
pub mod Evaluations
pub mod Parsing
pub mod Extraction
pub mod Injections
use policyai.Prelude.{
  ℕ, ◌≤◌, ◌<◌, ◌+◌, Text, text, len, ◌≡◌, ◌↔◌, refl, Bool, true, false, Option, none, some, List,
  [], ◌∷◌, ◌++◌, ltb, ◌==◌, All, pos, length, inl, inr, ◌⊎◌,
}
use Prim.Native.Nat.{compare}
use policyai.Json
use policyai.Json.{
  Platform, Value, null, string, number, array, nil, cons, Map, end, entry, object, value_get,
}
use policyai.Json.Maps.{or_else}
use policyai.Field
use policyai.Field.{OnConflict, Field}
use policyai.PolicyType.{PolicyType, Policy}
use policyai.PolicyType
use policyai.Errors.{PolicyError, string_conflict, expected_bool}
use policyai.Masks.{BoolMask, NumberMask, StringMask, StringArrayMask, StringEnumMask}
use policyai.Masks.Apply.{
  apply_bool, apply_number, apply_string, apply_string_array, apply_string_enum,
}
use policyai.Masks.Apply.Matches.{
  Applied, Other, bool_matches, number_matches, string_matches, string_array_matches,
  string_enum_matches,
}
use policyai.Masks.Apply.Matches.Scalars.{
  apply_bool-Applied, apply_number-Applied, apply_string-Applied, apply_string_enum-Applied,
}
use policyai.Masks.Apply.Matches.Arrays.{apply_string_array-Applied}
use policyai.Report
use policyai.Report.{Report, merged_value, or_empty}
use policyai.Report.Values.{
  report_bool, report_string, report_string_enum, report_string_array, init_empty_string_array,
}
use policyai.Report.Values.Invariant.{Ends, IsWellFormed, reported}
use policyai.Report.Values.Totality.{report_string_array-Reports, init_empty_string_array-Reports}
use policyai.Report.Output.{merged_value_lem}
use policyai.Report.Strategies.{Settled, values, report_in_turn, settle_all, clash_all}
use policyai.Report.Strategies.Outcomes.{
  any, Longest, report_bool_sticky, report_string-Longest, report_string_enum_by_length,
}
use policyai.Report.Strategies.Kinds.{
  bool_kind, number_kind, string_kind, enum_kind, strategy, report_as, report_as-Settled,
  report_as_agreement, report_as_default, report_as-Reports,
}
use policyai.ReportBuilder.{Schemas, ReportBuilder, initial, consume_ir}
use policyai.ReportBuilder.Policies.{add_policy}
use policyai.ReportBuilder.Policies.Accepts.{accepts_all, add_policy-accepts, add_policy-refused}
use policyai.ReportBuilder.Policies.Coherence.{
  IsCoherent, initial-IsCoherent, add_policy-IsCoherent,
}
use policyai.ReportBuilder.Consume.{Consumed, consume_ir-Consumed}
use policyai.ReportBuilder.Rules.{consume_ir-IsRule}
use policyai.Usage.{Claudius, Request, Response, Usage}
use policyai.Manager.{Manager}
use policyai.Manager.Apply.{Env, Ran, build, apply}
use policyai.Manager.Apply.Success.{Honoured, apply-Honoured}

-- numbers are natural numbers, and a message is its text
abbrev pub naturals : Platform
naturals = record {
  F64 = ℕ;
  Number = ℕ;
  f64_eq = λ a b. a == b;
  f64_lt = λ a b. ltb a b;
  total_cmp = compare;
  is_f64 = λ n. false;
  is_u64 = λ n. true;
  is_i64 = λ n. true;
  as_f64 = λ n. some n;
  as_u64 = λ n. some n;
  as_i64 = λ n. some (pos n);
  from_f64 = λ n. some n;
  number_eq = λ a b. a == b;
  MessageParam = Text;
  user_message = λ t. t;
  push_or_merge = λ ms m. ms ++ m ∷ [];
  is_printed = λ c. true;
}

abbrev pub blank : Report naturals
blank = Report.new [] [] [] [] [] [] []

pub blank-IsWellFormed : IsWellFormed blank
blank-IsWellFormed = record {
  fields = end;
  unique = tt;
  value_is = refl;
  defaults = end;
  default_is = refl;
}

-- the defaults say "low", and "high" was reported
abbrev pub filled : Report naturals
filled = record blank {
  default = some (object (entry (text "priority") (string (text "low")) end));
  value = some (object (entry (text "priority") (string (text "high")) end));
}

pub filled-IsWellFormed : IsWellFormed filled
unfolding Json.get
filled-IsWellFormed = record {
  fields = entry (text "priority") (string (text "high")) end;
  unique = (refl, tt);
  value_is = refl;
  defaults = entry (text "priority") (string (text "low")) end;
  default_is = refl;
}
