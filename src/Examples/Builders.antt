-- ===== src/Examples/Builders.antt =====
-- The theorems on src/masks.rs and src/report_builder.rs at concrete inputs.
use policyai.Examples.{naturals, filled, filled-IsWellFormed}
use policyai.Prelude.{
  arith, text_eq, ℕ, ◌≤◌, ◌+◌, Text, text, ◌≡◌, ◌↔◌, refl, true, false, none, some, [], ◌∷◌, All,
  length,
}
use policyai.Json
use policyai.Json.{
  Platform, Value, null, string, number, array, nil, cons, Map, end, entry, object, value_get,
}
use policyai.Field
use policyai.Field.{OnConflict, Field}
use policyai.PolicyType.{PolicyType, Policy}
use policyai.PolicyType
use policyai.Errors.{PolicyError, string_conflict, expected_bool}
use policyai.Masks.{BoolMask, NumberMask, StringMask, StringArrayMask, StringEnumMask}
use policyai.Masks.Apply.{
  apply_bool, apply_number, apply_string, apply_string_array, apply_string_enum,
}
use policyai.Masks.Apply.Matches.{
  Applied, Other, bool_matches, number_matches, string_matches, string_array_matches,
  string_enum_matches,
}
use policyai.Masks.Apply.Matches.Scalars.{
  apply_bool-Applied, apply_number-Applied, apply_string-Applied, apply_string_enum-Applied,
}
use policyai.Masks.Apply.Matches.Arrays.{apply_string_array-Applied}
use policyai.Report.Values.Invariant.{Ends}
use policyai.ReportBuilder.{Schemas, ReportBuilder, initial, consume_ir}
use policyai.ReportBuilder.Policies.{add_policy, add_field}
use policyai.ReportBuilder.Policies.Accepts.{accepts_all, add_policy-accepts, add_policy-refused}
use policyai.ReportBuilder.Policies.Coherence.{IsCoherent, add_policy-IsCoherent}
use policyai.ReportBuilder.Consume.{Consumed, consume_ir-Consumed}
use policyai.ReportBuilder.Rules.{consume_ir-IsRule}

abbrev urgent_mask : BoolMask
urgent_mask = record {
  policy_index = 1;
  name = text "urgent";
  mask = text "m0";
  default = some false;
  on_conflict = OnConflict.agreement;
}

abbrev age_mask : NumberMask naturals
age_mask = record {
  policy_index = 1;
  name = text "age";
  mask = text "m1";
  default = none;
  value = some 7;
  on_conflict = OnConflict.agreement;
}

abbrev team_mask : StringMask
team_mask = record {
  policy_index = 1;
  name = text "team";
  mask = text "m2";
  default = none;
  value = none;
  on_conflict = OnConflict.default;
}

abbrev tags_mask : StringArrayMask
tags_mask = record { policy_index = 1; name = text "tags"; mask = text "m3" }

abbrev priority_mask : StringEnumMask
priority_mask = record {
  policy_index = 1;
  name = text "priority";
  mask = text "m4";
  value = some (text "high");
  default = some (text "low");
  on_conflict = OnConflict.largest_value;
}

apply_bool-Applied_example : Ends (apply_bool (some (Value.bool true)) urgent_mask filled) (
    Applied
      (bool_matches {P = naturals} (some (Value.bool true)) urgent_mask)
      (Other urgent_mask.name)
      filled)
apply_bool-Applied_example =
    apply_bool-Applied (some (Value.bool true)) urgent_mask filled filled-IsWellFormed

apply_number-Applied_example : Ends (apply_number (some (number 3)) age_mask filled) (
    Applied (number_matches {P = naturals} (some (number 3)) age_mask) (Other age_mask.name) filled)
apply_number-Applied_example =
    apply_number-Applied (some (number 3)) age_mask filled filled-IsWellFormed

apply_string-Applied_example : Ends (apply_string (some (string (text "ops"))) team_mask filled) (
    Applied
      (string_matches {P = naturals} (some (string (text "ops"))) team_mask)
      (Other team_mask.name)
      filled)
apply_string-Applied_example =
    apply_string-Applied (some (string (text "ops"))) team_mask filled filled-IsWellFormed

apply_string_array-Applied_example :
    Ends (apply_string_array (some (array (cons (string (text "a")) nil))) tags_mask filled) (
      Applied
        (string_array_matches {P = naturals}
          (some (array (cons (string (text "a")) nil)))
          tags_mask)
        (Other tags_mask.name)
        filled)
apply_string_array-Applied_example =
    apply_string_array-Applied (some (array (cons (string (text "a")) nil))) tags_mask filled
      filled-IsWellFormed

apply_string_enum-Applied_example :
    Ends (apply_string_enum (some (Value.bool true)) priority_mask filled) (
      Applied
        (string_enum_matches {P = naturals} (some (Value.bool true)) priority_mask)
        (Other priority_mask.name)
        filled)
apply_string_enum-Applied_example =
    apply_string_enum-Applied (some (Value.bool true)) priority_mask filled filled-IsWellFormed

abbrev pub schemas : Schemas naturals
schemas = record { bool = null; f64 = null; string = null; strings = null; u64s = null }

-- the identifiers "m0", "m1", and so on
abbrev pub uuid : ℕ → Text
uuid n = 109 ∷ (n + 48) ∷ []

abbrev pub ticket : PolicyType naturals
ticket = record {
  name = text "Ticket";
  fields =
      Field.bool (text "urgent") (some false) OnConflict.agreement
      ∷ Field.number (text "age") none OnConflict.largest_value
      ∷ [];
}

abbrev pub outage : Policy naturals
outage = record {
  type = ticket;
  prompt = text "Set \"urgent\"";
  action = object (entry (text "urgent") (Value.bool true) end);
}

-- a text is no boolean
abbrev broken : Policy naturals
broken = record outage { action = object (entry (text "urgent") (string (text "yes")) end) }

-- one policy was added, and its mask is "m0"
abbrev one_mask : ReportBuilder naturals
one_mask = record (initial schemas) {
  bool_masks = urgent_mask ∷ [];
  masks_by_index = (text "m0" ∷ []) ∷ [];
  policy_index = 2;
}

one_mask-IsCoherent : IsCoherent one_mask
one_mask-IsCoherent = record {
  next = refl;
  bools = ((omega arith, omega arith), tt);
  numbers = tt;
  strings = tt;
  arrays = tt;
  enums = tt;
  defaults = end;
  defaults_are = refl;
}

abbrev pub answer : Value naturals
answer = object (
    entry (text "m0") (Value.bool true)
      (entry (text "__rule_numbers__") (array (cons (number 1) nil)) end))

consume_ir-Consumed_example : Ends (consume_ir one_mask answer) (Consumed one_mask answer)
consume_ir-Consumed_example = consume_ir-Consumed one_mask answer end refl

consume_ir-IsRule_example :
    Ends
      (consume_ir one_mask answer)
      (λ r. All (λ i. (1 ≤ i) × (i ≤ length r.masks_by_index)) r.rules_matched)
consume_ir-IsRule_example = consume_ir-IsRule one_mask answer one_mask-IsCoherent

add_policy-IsCoherent_example : IsCoherent (add_policy schemas uuid one_mask outage 1).builder
add_policy-IsCoherent_example =
    add_policy-IsCoherent schemas uuid one_mask outage 1 one_mask-IsCoherent

add_policy-accepts_example :
    ((add_policy schemas uuid one_mask outage 1).error ≡ none)
    ↔ (accepts_all outage.action outage.type.fields ≡ true)
add_policy-accepts_example = add_policy-accepts schemas uuid one_mask outage 1

broken-refused :
    (add_policy schemas uuid one_mask broken 1).error
    ≡ some (expected_bool (text "urgent") (text "string"))
unfolding add_policy add_field value_get Json.get text text_eq Field.name policyai.Errors.not_a_bool
    policyai.Errors.actual_type
broken-refused = refl

add_policy-refused_example :
    (add_policy schemas uuid one_mask broken 1).builder
    ≡ record one_mask { mask_index = 2; default_return = PolicyType.default_value ticket }
add_policy-refused_example = add_policy-refused schemas uuid one_mask broken 1 broken-refused
