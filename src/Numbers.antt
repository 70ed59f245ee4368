-- ===== src/Numbers.antt =====
-- The comparisons of JSON numbers in src/lib.rs.
use policyai.Prelude.{
  Bool, false, ◌&&◌, Option, some, if◌then◌else◌, ◌==◌, ltb, eqb_ℤ, ltb_ℤ, option_eq, option_lt,
}
use policyai.Json.{Platform}

module _ (P : Platform) where
  open P use {Number, F64, is_f64, is_u64, is_i64, as_f64, as_u64, as_i64, f64_eq, f64_lt}

  -- the last branch: both as `f64`, and false where one has no such value
  both_f64 : (F64 → F64 → Bool) → Option F64 → Option F64 → Bool
  both_f64 test (some l) (some r) = test l r
  both_f64 test _ _ = false

  unfoldable pub number_is_equal : Number → Number → Bool
  unfolding both_f64
  number_is_equal lhs rhs =
      if is_f64 lhs && is_f64 rhs
      then option_eq f64_eq (as_f64 lhs) (as_f64 rhs)
      else if is_u64 lhs && is_u64 rhs
      then option_eq ◌==◌ (as_u64 lhs) (as_u64 rhs)
      else if is_i64 lhs && is_i64 rhs
      then option_eq eqb_ℤ (as_i64 lhs) (as_i64 rhs)
      else both_f64 f64_eq (as_f64 lhs) (as_f64 rhs)

  unfoldable pub number_less_than : Number → Number → Bool
  unfolding both_f64
  number_less_than lhs rhs =
      if is_f64 lhs && is_f64 rhs
      then option_lt f64_lt (as_f64 lhs) (as_f64 rhs)
      else if is_u64 lhs && is_u64 rhs
      then option_lt ltb (as_u64 lhs) (as_u64 rhs)
      else if is_i64 lhs && is_i64 rhs
      then option_lt ltb_ℤ (as_i64 lhs) (as_i64 rhs)
      else both_f64 f64_lt (as_f64 lhs) (as_f64 rhs)
