-- ===== src/Masks/Apply.antt =====
-- `apply_to` of each mask of src/masks.rs: from the model's answer to the report.
pub mod Matches
pub mod Gathering
use policyai.Prelude.{
  ℕ, zero, suc, Text, text, text_eq, Bool, true, false, Option, none, some, List, [], ◌∷◌, ◌++◌,
  if◌then◌else◌,
}
use policyai.Json.{
  Platform, Value, null, bool, number, string, array, object, Values, nil, cons, value_get,
}
use policyai.Numbers.{number_is_equal}
use policyai.Field.{T64}
use policyai.Masks.{BoolMask, NumberMask, StringMask, StringArrayMask, StringEnumMask}
use policyai.Report.{
  Report, ◌>>=◌, report_policy_index, report_type_check_failure, report_invariant_violation,
  report_number_conflict, report_string_conflict, report_string_enum_conflict, report_bool_default,
  report_number_default, report_string_default,
}
use policyai.Report.Values.{
  report_bool, report_number, report_string, report_string_enum, report_string_array,
  init_empty_string_array,
}

module _ {P : Platform} where
  mistyped : ℕ → Text → Text → Report P → Option (Report P)
  mistyped line expected name r =
      some (report_type_check_failure (text "src/masks.rs") line (expected ++ name) r)

  bool_default : Option Bool → Text → Report P → Option (Report P)
  bool_default none name r = some r
  bool_default (some v) name r = report_bool_default name v r

  unfoldable pub apply_bool : Option (Value P) → BoolMask → Report P → Option (Report P)
  unfolding mistyped bool_default
  apply_bool (some (bool ret)) m r = report_bool m.policy_index m.name ret m.on_conflict r
  apply_bool none m r = bool_default m.default m.name r
  apply_bool (some _) m r = mistyped 89 (text "expected boolean for ") m.name r

  -- `BoolMask::apply_to`
  abbrev pub bool_apply_to : BoolMask → Value P → Report P → Option (Report P)
  bool_apply_to m ir r = apply_bool (value_get ir m.mask) m r

  -- the answer holds a number: it is compared with the expected one, if there is one
  number_found : Option P.Number → P.Number → NumberMask P → Report P → Option (Report P)
  number_found none v m r = report_number m.policy_index m.name v m.on_conflict r
  number_found (some e) v m r =
      if number_is_equal P v e
      then report_number m.policy_index m.name v m.on_conflict r
      else some (report_number_conflict m.name v e (report_policy_index m.policy_index r))

  number_default : Option P.Number → Text → Report P → Option (Report P)
  number_default (some d) name r = report_number_default name d r
  number_default none name r =
      some (report_invariant_violation (text "src/masks.rs") 229 (text "cannot cast to number") r)

  number_missing : Option (T64 P) → Text → Report P → Option (Report P)
  unfolding number_default
  number_missing none name r = some r
  number_missing (some d) name r = number_default (P.from_f64 d) name r

  unfoldable pub apply_number : Option (Value P) → NumberMask P → Report P → Option (Report P)
  unfolding mistyped number_found number_missing
  apply_number (some (number v)) m r = number_found m.value v m r
  apply_number none m r = number_missing m.default m.name r
  apply_number (some _) m r = mistyped 218 (text "expected number for ") m.name r

  -- `NumberMask::apply_to`
  abbrev pub number_apply_to : NumberMask P → Value P → Report P → Option (Report P)
  number_apply_to m ir r = apply_number (value_get ir m.mask) m r

  string_found : Option Text → Text → StringMask → Report P → Option (Report P)
  string_found none v m r = report_string m.policy_index m.name v m.on_conflict r
  string_found (some e) v m r =
      if text_eq v e
      then report_string m.policy_index m.name v m.on_conflict r
      else some (report_string_conflict m.name v e (report_policy_index m.policy_index r))

  string_default : Option Text → Text → Report P → Option (Report P)
  string_default none name r = some r
  string_default (some d) name r = report_string_default name d r

  unfoldable pub apply_string : Option (Value P) → StringMask → Report P → Option (Report P)
  unfolding mistyped string_found string_default
  apply_string (some (string v)) m r = string_found m.value v m r
  apply_string none m r = string_default m.default m.name r
  apply_string (some _) m r = mistyped 355 (text "expected string for ") m.name r

  -- `StringMask::apply_to`
  abbrev pub string_apply_to : StringMask → Value P → Report P → Option (Report P)
  string_apply_to m ir r = apply_string (value_get ir m.mask) m r

  -- the loop of `extract_strings` over an array; the call on an element is passed in
  extract_all : (Value P → Option (List Text)) → Values P → Option (List Text)
  extract_all f nil = some []
  extract_all f (cons v vs) = do strings ← f v; rest ← extract_all f vs; some (strings ++ rest)

  unfoldable pub extract_strings : ℕ → Value P → Option (List Text)
  unfolding extract_all
  extract_strings zero v = none
  extract_strings (suc depth) (string s) = some (s ∷ [])
  extract_strings (suc depth) (array a) = extract_all (extract_strings depth) a
  extract_strings (suc depth) _ = none

  unfoldable pub report_each : ℕ → Text → List Text → Report P → Option (Report P)
  report_each i name [] r = some r
  report_each i name (s ∷ ss) r = do r' ← report_string_array i name s r; report_each i name ss r'

  unfoldable pub strings_found : Option (List Text) → StringArrayMask → Report P → Option (Report P)
  unfolding mistyped report_each
  strings_found none m r = mistyped 463 (text "expected [string] for ") m.name r
  strings_found (some []) m r = init_empty_string_array m.policy_index m.name r
  strings_found (some (s ∷ ss)) m r = report_each m.policy_index m.name (s ∷ ss) r

  unfoldable pub apply_string_array :
      Option (Value P) → StringArrayMask → Report P → Option (Report P)
  unfolding strings_found extract_strings
  apply_string_array none m r = some r
  apply_string_array (some v) m r = strings_found (extract_strings 128 v) m r

  -- `StringArrayMask::apply_to`
  abbrev pub string_array_apply_to : StringArrayMask → Value P → Report P → Option (Report P)
  string_array_apply_to m ir r = apply_string_array (value_get ir m.mask) m r

  -- the flag is set
  enum_set : Option Text → StringEnumMask → Report P → Option (Report P)
  enum_set (some v) m r = report_string_enum m.policy_index m.name v m.on_conflict r
  enum_set none m r = some (
      report_string_enum_conflict m.name (text "true") (text "null")
        (report_policy_index m.policy_index r))

  unfoldable pub apply_string_enum :
      Option (Value P) → StringEnumMask → Report P → Option (Report P)
  unfolding mistyped string_default enum_set
  apply_string_enum (some (bool true)) m r = enum_set m.value m r
  apply_string_enum (some (bool false)) m r = string_default m.default m.name r
  apply_string_enum none m r = string_default m.default m.name r
  apply_string_enum (some _) m r = mistyped 584 (text "expected string for ") m.name r

  -- `StringEnumMask::apply_to`
  abbrev pub string_enum_apply_to : StringEnumMask → Value P → Report P → Option (Report P)
  string_enum_apply_to m ir r = apply_string_enum (value_get ir m.mask) m r
