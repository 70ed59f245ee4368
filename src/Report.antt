-- ===== src/Report.antt =====
-- src/report.rs: the state of a report, its defaults, errors and conflicts, and the merged output.
-- An operation that may panic returns an `Option` of the new report, `none` for the panic.
pub mod Values
pub mod Output
pub mod Defaults
pub mod Strategies
use policyai.Prelude.{
  ℕ, Text, text, Bool, true, false, not, ◌||◌, Option, none, some, List, [], ◌∷◌, ◌++◌,
  if◌then◌else◌,
}
use policyai.Json.{
  Platform, Value, null, bool, number, string, array, object, Map, end, entry, value_get, index_set,
}
use policyai.Json.Equality.{value_eq}
use policyai.Masks.{BoolMask, NumberMask, StringMask, StringArrayMask, StringEnumMask}
use policyai.Errors.{
  PolicyError, default_conflict, invariant_violation, type_check_failure, Conflict, bool_conflict,
  number_conflict, string_conflict,
}

pub record Report (P : Platform) : Type 0 where
  pub messages : List P.MessageParam
  pub bool_masks : List BoolMask
  pub number_masks : List (NumberMask P)
  pub string_masks : List StringMask
  pub string_array_masks : List StringArrayMask
  pub string_enum_masks : List StringEnumMask
  pub masks_by_index : List (List Text)
  pub rules_matched : List ℕ
  pub ir : Option (Value P)
  pub default : Option (Value P)
  pub value : Option (Value P)
  pub errors : List (PolicyError P)
  pub conflicts : List (Conflict P)

-- A step that may panic, then the next.
infixl 5 ◌>>=◌
abbrev pub ◌>>=◌ {ℓ κ} : {A : Type ℓ} {B : Type κ} → Option A → (A → Option B) → Option B
none >>= f = none
some a >>= f = f a

is_empty {ℓ} : {A : Type ℓ} → List A → Bool
is_empty [] = true
is_empty (_ ∷ _) = false

module _ {P : Platform} where
  -- `Report::new`
  abbrev pub new :
      List P.MessageParam
      → List BoolMask
      → List (NumberMask P)
      → List StringMask
      → List StringArrayMask
      → List StringEnumMask
      → List (List Text)
      → Report P
  new ms bs ns ss sas ses mbi = record {
    messages = ms;
    bool_masks = bs;
    number_masks = ns;
    string_masks = ss;
    string_array_masks = sas;
    string_enum_masks = ses;
    masks_by_index = mbi;
    rules_matched = [];
    ir = none;
    default = none;
    value = none;
    errors = [];
    conflicts = [];
  }

  -- `get_or_insert_with(|| json!({}))`, and `unwrap_or(json!({}))`
  abbrev pub or_empty : Option (Value P) → Value P
  or_empty none = object end
  or_empty (some v) = v

  -- the loop of `value`: each entry is assigned into the defaults
  unfoldable pub assign_all : Value P → Map P → Option (Value P)
  assign_all v end = some v
  assign_all v (entry k w m) = do v' ← index_set v k w; assign_all v' m

  -- the guard of `value` that the extracted value is an object
  unfoldable pub merge : Value P → Option (Value P) → Option (Value P)
  unfolding assign_all
  merge v (some (object m)) = assign_all v m
  merge v (some null) = some v
  merge v (some (bool _)) = some v
  merge v (some (number _)) = some v
  merge v (some (string _)) = some v
  merge v (some (array _)) = some v
  merge v none = some v

  -- `Report::value`
  unfoldable pub merged_value : Report P → Option (Value P)
  unfolding merge
  merged_value r = merge (or_empty r.default) r.value

  unfoldable pub has_errors : Report P → Bool
  unfolding is_empty
  has_errors r = not (is_empty r.errors) || not (is_empty r.conflicts)

  abbrev pub report_policy_index : ℕ → Report P → Report P
  report_policy_index i r = record r { rules_matched = r.rules_matched ++ i ∷ [] }

  abbrev pub report_invariant_violation : Text → ℕ → Text → Report P → Report P
  report_invariant_violation file line message r = record r {
    errors = r.errors ++ invariant_violation file line message ∷ [];
  }

  abbrev pub report_type_check_failure : Text → ℕ → Text → Report P → Report P
  report_type_check_failure file line message r = record r {
    errors =
        r.errors
        ++ type_check_failure file line message (text "valid JSON matching policy type")
            (text "invalid or mismatched JSON")
          ∷ [];
  }

  abbrev pub report_bool_conflict : Text → Bool → Bool → Report P → Report P
  report_bool_conflict field val1 val2 r = record r {
    conflicts = r.conflicts ++ bool_conflict field val1 val2 ∷ [];
  }

  abbrev pub report_number_conflict : Text → P.Number → P.Number → Report P → Report P
  report_number_conflict field val1 val2 r = record r {
    conflicts = r.conflicts ++ number_conflict field val1 val2 ∷ [];
  }

  abbrev pub report_string_conflict : Text → Text → Text → Report P → Report P
  report_string_conflict field val1 val2 r = record r {
    conflicts = r.conflicts ++ string_conflict field val1 val2 ∷ [];
  }

  abbrev pub report_string_enum_conflict : Text → Text → Text → Report P → Report P
  report_string_enum_conflict field val1 val2 r = record r {
    conflicts = r.conflicts ++ string_conflict field val1 val2 ∷ [];
  }

  -- `if let Some(existing) = build.get(field)`, at what the lookup found
  unfoldable pub default_at : Option (Value P) → Text → Value P → Report P → Option (Report P)
  default_at (some existing) field new r = some (record r {
    default = some (or_empty r.default);
    errors =
        if not (value_eq existing new)
        then r.errors
          ++ default_conflict field existing new
              (text "Ensure all policies use the same default value for this field")
            ∷ []
        else r.errors;
  })
  default_at none field new r = do
    build ← index_set (or_empty r.default) field new
    some (record r { default = some build })

  -- the body that the three `report_*_default` share, at the default as a JSON value
  unfoldable pub report_default : Text → Value P → Report P → Option (Report P)
  unfolding default_at
  report_default field new r = default_at (value_get (or_empty r.default) field) field new r

  unfoldable pub report_bool_default : Text → Bool → Report P → Option (Report P)
  unfolding report_default
  report_bool_default field d r = report_default field (bool d) r

  unfoldable pub report_number_default : Text → P.Number → Report P → Option (Report P)
  unfolding report_default
  report_number_default field d r = report_default field (number d) r

  unfoldable pub report_string_default : Text → Text → Report P → Option (Report P)
  unfolding report_default
  report_string_default field d r = report_default field (string d) r
