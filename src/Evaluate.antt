-- ===== src/Evaluate.antt =====
-- The comparison of outputs in src/bin/policyai-evaluate-policies.rs: when two values match, what is
-- expected of an output, and how many of its fields are right.
pub mod Counts
pub mod Expected
pub mod Baseline
use policyai.Prelude.{
  ℕ, ◌+◌, Text, text, text_eq, Bool, true, false, not, ◌&&◌, ◌||◌, Option, none, some, List, [],
  ◌∷◌, ℤ, if◌then◌else◌,
}
use policyai.Json.{
  Platform, Value, null, bool, number, string, array, object, Map, end, entry, get, insert, extend,
}
use policyai.Json.Equality.{value_eq}
use policyai.PolicyType
use policyai.PolicyType.{Policy}

-- the arithmetic of `f64` that the comparison uses
pub record Arithmetic (P : Platform) : Type 0 where
  pub zero_f64 : P.F64
  -- the literal 0.00001
  pub tolerance : P.F64
  -- `as f64`
  pub of_i64 : ℤ → P.F64
  pub of_u64 : ℕ → P.F64
  pub subtract : P.F64 → P.F64 → P.F64
  pub divide : P.F64 → P.F64 → P.F64
  pub abs : P.F64 → P.F64
  -- `<=`
  pub at_most : P.F64 → P.F64 → Bool

pub record FieldCounts : Type 0 where
  pub matched : ℕ
  pub wrong_value : ℕ
  pub missing : ℕ
  pub extra : ℕ

module _ {P : Platform} where
  unfoldable pub has_key : Map P → Text → Bool
  unfolding get
  has_key m k = elim (get m k) [ none ↦ false | some _ ↦ true ]

  -- `as_object`
  unfoldable pub as_object : Value P → Option (Map P)
  as_object (object m) = some m
  as_object (null) = none
  as_object (bool _) = none
  as_object (number _) = none
  as_object (string _) = none
  as_object (array _) = none

  -- `result.entry(k).or_insert(v)` for every entry
  unfoldable pub or_insert_all : Map P → Map P → Map P
  or_insert_all m end = m
  or_insert_all m (entry k v n) =
      or_insert_all (elim (get m k) [ none ↦ insert m k v | some _ ↦ m ]) n

  unfoldable pub or_insert_object : Map P → Option (Map P) → Map P
  unfolding or_insert_all
  or_insert_object m none = m
  or_insert_object m (some n) = or_insert_all m n

  -- the loop over the policies
  unfoldable pub collect_policies : Map P → List (Policy P) → Map P
  unfolding or_insert_object as_object
  collect_policies m [] = m
  collect_policies m (p ∷ ps) =
      collect_policies (or_insert_object m (as_object (PolicyType.default_value p.type))) ps

  unfoldable pub override : Map P → Option (Value P) → Map P
  override m (some (object n)) = extend m n
  override m _ = m

  unfoldable pub build_expected_with_defaults : List (Policy P) → Option (Value P) → Map P
  unfolding collect_policies override
  build_expected_with_defaults ps expected = override (collect_policies end ps) expected

module _ {P : Platform} (A : Arithmetic P) where
  -- `as_f64`, or else `as_i64`, or else `as_u64`
  to_f64 : P.Number → Option P.F64
  to_f64 n = elim (P.as_f64 n) [
    | some f ↦ some f
    | none ↦ elim (P.as_i64 n) [
      | some i ↦ some (A.of_i64 i)
      | none ↦ elim (P.as_u64 n) [ some u ↦ some (A.of_u64 u) | none ↦ none ]
    ]
  ]

  close : P.F64 → P.F64 → Bool
  close v1 v2 =
      if P.f64_eq v1 A.zero_f64 && P.f64_eq v2 A.zero_f64
      then true
      else if P.f64_eq v1 A.zero_f64 || P.f64_eq v2 A.zero_f64
      then false
      else A.at_most (A.abs (A.divide (A.subtract v1 v2) v1)) A.tolerance

  close_found : Option P.F64 → Option P.F64 → Bool
  unfolding close
  close_found (some v1) (some v2) = close v1 v2
  close_found _ _ = false

  values_close : Value P → Value P → Bool
  unfolding close_found to_f64
  values_close (number n1) (number n2) = close_found (to_f64 n1) (to_f64 n2)
  values_close _ _ = false

  unfoldable pub values_match : Value P → Value P → Bool
  unfolding values_close
  values_match expected actual =
      if value_eq expected actual then true else values_close expected actual

  -- one expected field, at what the output has for it
  unfoldable pub judged : Option (Value P) → Value P → FieldCounts → FieldCounts
  unfolding values_match
  judged none expected s = record s { missing = s.missing + 1 }
  judged (some actual) expected s =
      if values_match expected actual
      then record s { matched = s.matched + 1 }
      else record s { wrong_value = s.wrong_value + 1 }

  unfoldable pub judge_expected : Option (Map P) → Map P → FieldCounts → FieldCounts
  unfolding judged
  judge_expected actual end s = s
  judge_expected none (entry k v m) s = judge_expected none m (record s { missing = s.missing + 1 })
  judge_expected (some obj) (entry k v m) s = judge_expected (some obj) m (judged (get obj k) v s)

  -- the loop over the keys of the output
  unfoldable pub count_extra : Map P → Map P → FieldCounts → FieldCounts
  unfolding has_key
  count_extra expected end s = s
  count_extra expected (entry k v m) s = count_extra expected m (
      if not (text_eq k (text "__rule_numbers__")) && not (has_key expected k)
      then record s { extra = s.extra + 1 }
      else s)

  unfoldable pub extra_of : Map P → Option (Map P) → FieldCounts → FieldCounts
  unfolding count_extra
  extra_of expected none s = s
  extra_of expected (some obj) s = count_extra expected obj s

  unfoldable pub calculate_field_metrics : Map P → Value P → FieldCounts
  unfolding judge_expected extra_of as_object
  calculate_field_metrics expected actual =
      let none_yet : FieldCounts = record {
        matched = 0;
        wrong_value = 0;
        missing = 0;
        extra = 0;
      } in
      extra_of expected (as_object actual) (judge_expected (as_object actual) expected none_yet)
