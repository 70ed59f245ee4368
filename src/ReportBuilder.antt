-- ===== src/ReportBuilder.antt =====
-- src/report_builder.rs: the builder that collects the masks of the policies, and its consumption
-- of the model's answer.
pub mod Policies
pub mod Consume
pub mod Rules
use policyai.Prelude.{
  ℕ, suc, ◌+◌, Text, text, text_eq, Bool, true, false, Option, none, some, List, [], ◌∷◌, ◌++◌,
  if◌then◌else◌,
}
use policyai.Json.{
  Platform, Value, null, bool, number, string, array, object, Values, nil, cons, Map, end, entry,
  get, insert, value_get, index_set, extend,
}
use policyai.Format.{debug, decimal, replace}
use policyai.Field
use policyai.Field.{Field, OnConflict, T64}
use policyai.PolicyType
use policyai.PolicyType.{PolicyType, Policy}
use policyai.Errors.{PolicyError, not_a_bool, not_a_number, not_a_string}
use policyai.Masks.{BoolMask, NumberMask, StringMask, StringArrayMask, StringEnumMask}
use policyai.Masks.Apply.{
  bool_apply_to, number_apply_to, string_apply_to, string_array_apply_to, string_enum_apply_to,
}
use policyai.Report
use policyai.Report.{Report, ◌>>=◌}

-- The schemas that claudius derives for a type.
pub record Schemas (P : Platform) : Type 0 where
  pub bool : Value P
  pub f64 : Value P
  pub string : Value P
  pub strings : Value P
  pub u64s : Value P

pub record ReportBuilder (P : Platform) : Type 0 where
  pub mask_index : ℕ
  pub bool_masks : List BoolMask
  pub number_masks : List (NumberMask P)
  pub string_masks : List StringMask
  pub string_array_masks : List StringArrayMask
  pub string_enum_masks : List StringEnumMask
  pub masks_by_index : List (List Text)
  pub default_return : Value P
  pub messages : List P.MessageParam
  pub policy_index : ℕ
  pub required : List Text
  pub properties : Value P

-- The changes that `add_policy` collects before it commits them: its local variables.
pub record Pending (P : Platform) : Type 0 where
  pub content : Text
  pub new_bool_masks : List BoolMask
  pub new_number_masks : List (NumberMask P)
  pub new_string_masks : List StringMask
  pub new_string_array_masks : List StringArrayMask
  pub new_string_enum_masks : List StringEnumMask
  pub new_required : List Text
  pub new_properties : Map P
  pub new_masks : List Text
  -- how many identifiers the generator has handed out
  pub drawn : ℕ

-- A step that fails with an error of the policy.
pub data Outcome {ℓ} (P : Platform) (A : Type ℓ) : Type ℓ where
  ok : A → Outcome P A
  err : PolicyError P → Outcome P A

module _ {P : Platform} where
  abbrev pub bind {ℓ κ} : {A : Type ℓ} {B : Type κ} → Outcome P A → (A → Outcome P B) → Outcome P B
  bind (ok a) f = f a
  bind (err e) f = err e

  -- `ReportBuilder::default`
  abbrev pub initial : Schemas P → ReportBuilder P
  initial S = record {
    mask_index = 1;
    bool_masks = [];
    number_masks = [];
    string_masks = [];
    string_array_masks = [];
    string_enum_masks = [];
    masks_by_index = [];
    default_return = object end;
    messages = [];
    policy_index = 1;
    required = text "__rule_numbers__" ∷ text "__justification__" ∷ [];
    properties =
        object
          (entry (text "__rule_numbers__") S.u64s (entry (text "__justification__") S.string end));
  }

  unfoldable pub pending : Text → ℕ → Pending P
  pending prompt drawn = record {
    content = prompt;
    new_bool_masks = [];
    new_number_masks = [];
    new_string_masks = [];
    new_string_array_masks = [];
    new_string_enum_masks = [];
    new_required = [];
    new_properties = end;
    new_masks = [];
    drawn = drawn;
  }

  -- what each kind of field does with its mask: note it, hide the name in the prompt, and publish
  -- the schema
  unfoldable pub hide : Text → Text → Bool → Value P → Pending P → Pending P
  hide name mask required schema p = record p {
    content = replace p.content (debug P name) (debug P mask);
    new_required = if required then p.new_required ++ mask ∷ [] else p.new_required;
    new_properties = insert p.new_properties mask schema;
    new_masks = p.new_masks ++ mask ∷ [];
    drawn = suc p.drawn;
  }

  extend_properties : Value P → Map P → Value P
  extend_properties (object m) n = object (extend m n)
  extend_properties v n = v

  -- the part after the loop, which cannot fail
  unfoldable pub commit : ReportBuilder P → Pending P → ReportBuilder P
  unfolding extend_properties
  commit b p = record b {
    messages = P.push_or_merge b.messages (
        P.user_message (
          text "<rule index=\""
          ++ (decimal b.policy_index ++ (text "\">" ++ (p.content ++ text "</rule>")))));
    properties = extend_properties b.properties p.new_properties;
    bool_masks = b.bool_masks ++ p.new_bool_masks;
    number_masks = b.number_masks ++ p.new_number_masks;
    string_masks = b.string_masks ++ p.new_string_masks;
    string_array_masks = b.string_array_masks ++ p.new_string_array_masks;
    string_enum_masks = b.string_enum_masks ++ p.new_string_enum_masks;
    masks_by_index = b.masks_by_index ++ p.new_masks ∷ [];
    policy_index = b.policy_index + 1;
  }

  -- `for m in masks { m.apply_to(&ir, &mut report) }`
  unfoldable pub apply_all {ℓ} :
      {M : Type ℓ}
      → (M → Value P → Report P → Option (Report P))
      → List M
      → Value P
      → Report P
      → Option (Report P)
  apply_all f [] ir r = some r
  apply_all f (m ∷ ms) ir r = do r' ← f m ir r; apply_all f ms ir r'

  -- It always returns `Ok`; `none` is a panic.
  unfoldable pub consume_ir : ReportBuilder P → Value P → Option (Report P)
  unfolding apply_all
  consume_ir b ir = do
    let empty =
        Report.new b.messages b.bool_masks b.number_masks b.string_masks b.string_array_masks
          b.string_enum_masks b.masks_by_index
    let r0 = record empty { ir = some ir; default = some b.default_return }
    r1 ← apply_all bool_apply_to b.bool_masks ir r0
    r2 ← apply_all number_apply_to b.number_masks ir r1
    r3 ← apply_all string_apply_to b.string_masks ir r2
    r4 ← apply_all string_array_apply_to b.string_array_masks ir r3
    apply_all string_enum_apply_to b.string_enum_masks ir r4

  strings_value : List Text → Values P
  strings_value [] = nil
  strings_value (s ∷ ss) = cons (string s) (strings_value ss)

  unfoldable pub schema : ReportBuilder P → Value P
  unfolding strings_value
  schema b = object (
      entry (text "type") (string (text "object")) (
        entry (text "required") (array (strings_value b.required))
          (entry (text "properties") b.properties end)))
