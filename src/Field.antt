-- ===== src/Field.antt =====
-- src/field.rs, src/on_conflict.rs and the type `t64` of src/lib.rs: the fields of a policy type.
use policyai.Prelude.{Text, Bool, Option, none, some, List, Ordering}
use policyai.Json.{Platform, Value, null, nil}

pub data OnConflict : Type 0 where
  default : OnConflict
  agreement : OnConflict
  largest_value : OnConflict

-- `t64` wraps an `f64`, and compares by `f64::total_cmp`.
abbrev pub T64 : Platform → Type 0
T64 P = P.F64

unfoldable pub t64_cmp : (P : Platform) → T64 P → T64 P → Ordering
t64_cmp P a b = P.total_cmp a b

unfoldable pub t64_eq : (P : Platform) → T64 P → T64 P → Bool
unfolding t64_cmp
t64_eq P a b = elim (t64_cmp P a b) [ Ordering.eq ↦ Bool.true | _ ↦ Bool.false ]

pub data Field (P : Platform) : Type 0 where
  bool : Text → Option Bool → OnConflict → Field P
  string : Text → Option Text → OnConflict → Field P
  string_enum : Text → List Text → Option Text → OnConflict → Field P
  string_array : Text → Field P
  number : Text → Option (T64 P) → OnConflict → Field P

module _ {P : Platform} where
  -- `From<t64> for Value`
  unfoldable pub t64_value : T64 P → Value P
  t64_value x = elim (P.from_f64 x) [ none ↦ null | some n ↦ Value.number n ]

  unfoldable pub name : Field P → Text
  name (bool n _ _) = n
  name (number n _ _) = n
  name (string n _ _) = n
  name (string_enum n _ _ _) = n
  name (string_array n) = n

  -- `From<Option<T>> for Value`
  option_value {ℓ} : {A : Type ℓ} → (A → Value P) → Option A → Value P
  option_value into none = null
  option_value into (some a) = into a

  unfoldable pub default_value : Field P → Value P
  unfolding option_value t64_value
  default_value (bool _ d _) = option_value Value.bool d
  default_value (number _ d _) = option_value t64_value d
  default_value (string _ d _) = option_value Value.string d
  default_value (string_enum _ _ d _) = option_value Value.string d
  default_value (string_array _) = Value.array nil
