-- ===== src/Examples/Managers.antt =====
-- The theorem on src/manager.rs at a concrete input, and two runs.
use policyai.Examples.{naturals}
use policyai.Examples.Builders.{schemas, uuid, outage, answer}
use policyai.Json
use policyai.Json.{value_get}
use policyai.ReportBuilder.Policies.{add_policy, add_field}
use policyai.Prelude.{text_eq, ℕ, ◌+◌, Text, text, ◌≡◌, refl, Option, none, some, [], ◌∷◌, inr}
use policyai.Json
use policyai.Json.{
  Platform, Value, null, string, number, array, nil, cons, Map, end, entry, object, value_get,
}
use policyai.Field
use policyai.Field.{OnConflict, Field}
use policyai.PolicyType.{PolicyType, Policy}
use policyai.PolicyType
use policyai.Masks.Apply.{apply_bool}
use policyai.Report
use policyai.Report.{Report, merged_value, or_empty}
use policyai.Report.Values.{
  report_bool, report_string, report_string_enum, report_string_array, init_empty_string_array,
}
use policyai.ReportBuilder.{initial, consume_ir}
use policyai.ReportBuilder.Policies.{add_policy}
use policyai.Usage.{Usage, Claudius, Request}
use policyai.Manager.{Manager}
use policyai.Manager.Apply.{Env, Ran, build, apply}
use policyai.Manager.Apply.Success.{Honoured, apply-Honoured}
use policyai.Manager.Apply.Metering.{Charged, apply-Charged}

-- A block of an answer is the identifier and the input of a tool call, or nothing.
abbrev pub toy : Claudius naturals
toy = record {
  Error = Text;
  Tokens = ℕ;
  add_tokens = λ a b. a + b;
  Duration = ℕ;
  no_time = 0;
  Template = Unit;
  System = Text;
  system_text = λ t. t;
  ToolChoice = Text;
  tool_choice = λ t. t;
  Tool = Text;
  custom_tool = λ n d s. n;
  Block = Option (Text × Value naturals);
  tool_use = λ b. b;
  assistant_message = λ bs. text "assistant";
  tool_error_message = λ i t. t;
  to_string = λ v. text "{}";
  rule_numbers = λ v. some (1 ∷ []);
}

-- every request is answered in the same way
abbrev env_of : Value naturals → Env toy
env_of ir = record {
  schemas = schemas;
  uuid = uuid;
  client = λ n req. inr (record { usage = 10; content = some (text "call", ir) ∷ [] });
  elapsed = λ n. n;
  manager_md = [];
  manager_suffix_md = [];
}

abbrev template : Request toy
template = record { template = tt; messages = []; system = none; tool_choice = none; tools = none }

abbrev manager : Manager naturals
manager = record { policies = outage ∷ [] }

apply-Honoured_example :
    Honoured
      (env_of answer)
      (build schemas uuid manager.policies (initial schemas) 0)
      (apply (env_of answer) manager template (text "down") none)
apply-Honoured_example = apply-Honoured (env_of answer) manager template (text "down") none

-- an answer that reports its rule is accepted at once
one_call : (apply (env_of answer) manager template (text "down") none).calls ≡ 1
unfolding apply add_policy add_field value_get Json.get text text_eq Field.name
    policyai.Manager.Apply.judge consume_ir apply_bool report_bool policyai.Report.Values.store
    Json.index_set policyai.Manager.lists_eq policyai.Manager.dedup policyai.Manager.sort
one_call = refl

-- one that matches no rule, but reports one, is tried five times
five_calls :
    (apply
      (env_of (object (entry (text "__rule_numbers__") null end)))
      manager
      template
      (text "down")
      none).calls
    ≡ 5
unfolding apply add_policy add_field value_get Json.get text text_eq Field.name
    policyai.Manager.Apply.judge consume_ir apply_bool Report.report_bool_default
    PolicyType.default_value Field.default_value Json.insert policyai.Manager.lists_eq
    policyai.Manager.dedup policyai.Manager.sort
five_calls = refl

abbrev old_usage : Usage toy
old_usage = record { claudius_usage = some 99; wall_clock_time = 7; iterations = 4 }

apply-Charged_example :
    Charged
      (env_of answer)
      old_usage
      (build schemas uuid manager.policies (initial schemas) 0)
      (apply (env_of answer) manager template (text "down") (some old_usage))
apply-Charged_example = apply-Charged (env_of answer) manager template (text "down") old_usage
