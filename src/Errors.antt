-- ===== src/Errors.antt =====
-- src/errors.rs: the errors and conflicts as values. The texts that `Display` prints are not here.
use policyai.Prelude.{ℕ, Text, text, Bool}
use policyai.Json.{Platform, Value, null, bool, number, string, array, object}
use policyai.Field.{Field}

pub data PolicyError (P : Platform) : Type 0 where
  inconsistent : Field P → PolicyError P
  -- the field's name, and the type that was found
  expected_bool : Text → Text → PolicyError P
  expected_number : Text → Text → PolicyError P
  expected_string : Text → Text → PolicyError P
  -- field, existing, new, suggestion
  default_conflict : Text → Value P → Value P → Text → PolicyError P
  -- file, line, message
  invariant_violation : Text → ℕ → Text → PolicyError P
  -- file, line, message, expected, actual
  type_check_failure : Text → ℕ → Text → Text → Text → PolicyError P

-- Each has the field and the two values.
pub data Conflict (P : Platform) : Type 0 where
  bool_conflict : Text → Bool → Bool → Conflict P
  number_conflict : Text → P.Number → P.Number → Conflict P
  string_conflict : Text → Text → Text → Conflict P
  disagree : Text → Value P → Value P → Conflict P

-- `E` is `claudius::Error`.
pub data ApplyError (P : Platform) (E : Type 0) : Type 0 where
  policy : PolicyError P → ApplyError P E
  claudius : E → ApplyError P E
  conflict : Conflict P → ApplyError P E
  too_many_iterations : ℕ → Text → ApplyError P E
  invalid_response : Text → Text → ApplyError P E

module _ {P : Platform} where
  unfoldable pub actual_type : Value P → Text
  actual_type null = text "null"
  actual_type (bool _) = text "bool"
  actual_type (number _) = text "number"
  actual_type (string _) = text "string"
  actual_type (array _) = text "array"
  actual_type (object _) = text "object"

  -- `PolicyError::expected_bool` and so on
  unfoldable pub not_a_bool : Text → Value P → PolicyError P
  not_a_bool field v = expected_bool field (actual_type v)

  unfoldable pub not_a_number : Text → Value P → PolicyError P
  not_a_number field v = expected_number field (actual_type v)

  unfoldable pub not_a_string : Text → Value P → PolicyError P
  not_a_string field v = expected_string field (actual_type v)
