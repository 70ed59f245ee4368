-- ===== src/Report/Values.antt =====
-- src/report.rs: the values that the masks report, with the strategies for conflicts.
pub mod Invariant
pub mod Scalars
pub mod Totality
pub mod Arrays
use policyai.Prelude.{
  ℕ, Text, text, text_eq, len, Bool, not, Option, none, some, ltb, if◌then◌else◌,
}
use policyai.Json.{
  Map, Platform, Value, null, bool, number, string, array, object, nil, cons, get, insert,
  value_get, index_set, push,
}
use policyai.Json.Equality.{bool_eq, contains_value}
use policyai.Numbers.{number_is_equal, number_less_than}
use policyai.Field.{OnConflict}
use policyai.Report.{
  Report, ◌>>=◌, or_empty, report_policy_index, report_invariant_violation, report_bool_conflict,
  report_number_conflict, report_string_conflict,
}

module _ {P : Platform} where
  -- `build[field] = v`, and `*v = v` at the place that `get_mut` found, which is the same write
  unfoldable pub store : Text → Value P → Report P → Option (Report P)
  store field v r = do
    build ← index_set (or_empty r.value) field v
    some (record r { value = some build })

  -- `build` after `get_or_insert_with`, where nothing else is written
  unfoldable pub touch : Report P → Report P
  touch r = record r { value = some (or_empty r.value) }

  violation : ℕ → Text → Report P → Option (Report P)
  unfolding touch
  violation line message r =
      some (report_invariant_violation (text "src/report.rs") line message (touch r))

  -- two booleans that differ
  unfoldable pub resolve_bool : OnConflict → Text → Bool → Bool → Report P → Option (Report P)
  unfolding touch
  resolve_bool OnConflict.default field b v r = some (touch r)
  resolve_bool OnConflict.agreement field b v r = some (report_bool_conflict field b v (touch r))
  resolve_bool OnConflict.largest_value field b v r =
      if v then store field (bool v) r else some (touch r)

  unfoldable pub bool_at :
      Option (Value P) → Text → Bool → OnConflict → Report P → Option (Report P)
  unfolding resolve_bool violation
  bool_at none field v c r = store field (bool v) r
  bool_at (some null) field v c r = store field (bool v) r
  bool_at (some (bool b)) field v c r =
      if not (bool_eq b v) then resolve_bool c field b v r else some (touch r)
  bool_at (some (number _)) field v c r = violation 253 (text "number found in place of bool") r
  bool_at (some (string _)) field v c r = violation 260 (text "string found in place of bool") r
  bool_at (some (array _)) field v c r = violation 267 (text "array found in place of bool") r
  bool_at (some (object _)) field v c r = violation 272 (text "found an object") r

  unfoldable pub report_bool : ℕ → Text → Bool → OnConflict → Report P → Option (Report P)
  unfolding bool_at
  report_bool i field v c r0 =
      let r = report_policy_index i r0 in bool_at (value_get (or_empty r.value) field) field v c r

  -- two numbers that differ
  unfoldable pub resolve_number :
      OnConflict → Text → P.Number → P.Number → Report P → Option (Report P)
  unfolding touch
  resolve_number OnConflict.default field n v r = some (touch r)
  resolve_number OnConflict.agreement field n v r =
      some (report_number_conflict field n v (touch r))
  resolve_number OnConflict.largest_value field n v r =
      if number_less_than P n v
      then store field (number v) r
      else some (report_number_conflict field n v (touch r))

  unfoldable pub number_at :
      Option (Value P) → Text → P.Number → OnConflict → Report P → Option (Report P)
  unfolding resolve_number violation
  number_at none field v c r = store field (number v) r
  number_at (some null) field v c r = store field (number v) r
  number_at (some (number n)) field v c r =
      if not (number_is_equal P n v) then resolve_number c field n v r else some (touch r)
  number_at (some (bool _)) field v c r = violation 397 (text "bool found in place of number") r
  number_at (some (string _)) field v c r = violation 397 (text "string found in place of number") r
  number_at (some (array _)) field v c r = violation 397 (text "array found in place of number") r
  number_at (some (object _)) field v c r = violation 397 (text "found an object") r

  unfoldable pub report_number : ℕ → Text → P.Number → OnConflict → Report P → Option (Report P)
  unfolding number_at
  report_number i field v c r0 =
      let r = report_policy_index i r0 in number_at (value_get (or_empty r.value) field) field v c r

  -- two strings that differ
  unfoldable pub resolve_string : OnConflict → Text → Text → Text → Report P → Option (Report P)
  unfolding touch
  resolve_string OnConflict.default field s v r = some (touch r)
  resolve_string OnConflict.agreement field s v r =
      some (report_string_conflict field s v (touch r))
  resolve_string OnConflict.largest_value field s v r =
      if ltb (len s) (len v) then store field (string v) r else some (touch r)

  unfoldable pub string_at :
      Option (Value P) → Text → Text → OnConflict → Report P → Option (Report P)
  unfolding resolve_string violation
  string_at none field v c r = store field (string v) r
  string_at (some null) field v c r = store field (string v) r
  string_at (some (string s)) field v c r =
      if not (text_eq s v) then resolve_string c field s v r else some (touch r)
  string_at (some (bool _)) field v c r = violation 514 (text "bool found in place of string") r
  string_at (some (number _)) field v c r = violation 514 (text "number found in place of string") r
  string_at (some (array _)) field v c r = violation 514 (text "array found in place of string") r
  string_at (some (object _)) field v c r = violation 514 (text "found an object") r

  unfoldable pub report_string : ℕ → Text → Text → OnConflict → Report P → Option (Report P)
  unfolding string_at
  report_string i field v c r0 =
      let r = report_policy_index i r0 in string_at (value_get (or_empty r.value) field) field v c r

  -- two enum values that differ
  unfoldable pub resolve_enum : OnConflict → Text → Text → Text → Report P → Option (Report P)
  unfolding touch
  resolve_enum OnConflict.default field s v r = some (touch r)
  resolve_enum OnConflict.agreement field s v r = some (report_string_conflict field s v (touch r))
  resolve_enum OnConflict.largest_value field s v r =
      if ltb (len s) (len v)
      then store field (string v) r
      else some (report_string_conflict field s v (touch r))

  unfoldable pub enum_at :
      Option (Value P) → Text → Text → OnConflict → Report P → Option (Report P)
  unfolding resolve_enum violation
  enum_at none field v c r = store field (string v) r
  enum_at (some null) field v c r = store field (string v) r
  enum_at (some (string s)) field v c r =
      if not (text_eq s v) then resolve_enum c field s v r else some (touch r)
  enum_at (some (bool _)) field v c r = violation 574 (text "bool found in place of string enum") r
  enum_at (some (number _)) field v c r =
      violation 581 (text "number found in place of string enum") r
  enum_at (some (array _)) field v c r =
      violation 588 (text "array found in place of string enum") r
  enum_at (some (object _)) field v c r = violation 593 (text "found an object") r

  unfoldable pub report_string_enum : ℕ → Text → Text → OnConflict → Report P → Option (Report P)
  unfolding enum_at
  report_string_enum i field v c r0 =
      let r = report_policy_index i r0 in enum_at (value_get (or_empty r.value) field) field v c r

  -- `if let Some(Value::Array(arr))`: anything else at the field is replaced by a new array
  unfoldable pub array_at : Option (Value P) → Text → Text → Report P → Option (Report P)
  unfolding touch
  array_at (some (array vs)) field v r =
      if not (contains_value vs (string v))
      then store field (array (push vs (string v))) r
      else some (touch r)
  array_at (some null) field v r = store field (array (cons (string v) nil)) r
  array_at (some (bool _)) field v r = store field (array (cons (string v) nil)) r
  array_at (some (number _)) field v r = store field (array (cons (string v) nil)) r
  array_at (some (string _)) field v r = store field (array (cons (string v) nil)) r
  array_at (some (object _)) field v r = store field (array (cons (string v) nil)) r
  array_at none field v r = store field (array (cons (string v) nil)) r

  unfoldable pub report_string_array : ℕ → Text → Text → Report P → Option (Report P)
  unfolding array_at
  report_string_array i field v r0 =
      let r = report_policy_index i r0 in array_at (value_get (or_empty r.value) field) field v r

  -- `entry(field).or_insert_with(..)`, at what the key holds
  or_insert : Option (Value P) → Map P → Text → Map P
  or_insert (some _) m field = m
  or_insert none m field = insert m field (array nil)

  -- `as_object_mut().unwrap()` panics at any other value.
  unfoldable pub empty_array_in : Value P → Text → Report P → Option (Report P)
  unfolding or_insert
  empty_array_in (object m) field r =
      some (record r { value = some (object (or_insert (get m field) m field)) })
  empty_array_in null field r = none
  empty_array_in (bool _) field r = none
  empty_array_in (number _) field r = none
  empty_array_in (string _) field r = none
  empty_array_in (array _) field r = none

  unfoldable pub init_empty_string_array : ℕ → Text → Report P → Option (Report P)
  unfolding empty_array_in
  init_empty_string_array i field r0 =
      let r = report_policy_index i r0 in empty_array_in (or_empty r.value) field r
