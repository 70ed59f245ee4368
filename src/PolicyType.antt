-- ===== src/PolicyType.antt =====
-- `PolicyType` with its default value (src/policy_type.rs), and `Policy` (src/policy.rs).
pub mod Injection
use policyai.Prelude.{Text, Bool, true, false, List, [], ◌∷◌, if◌then◌else◌}
use policyai.Json.{
  Platform, Value, null, bool, number, string, array, object, nil, cons, Map, end, entry, insert,
}
use policyai.Field
use policyai.Field.{Field}

pub record PolicyType (P : Platform) : Type 0 where
  pub name : Text
  pub fields : List (Field P)

pub record Policy (P : Platform) : Type 0 where
  pub type : PolicyType P
  pub prompt : Text
  pub action : Value P

module _ {P : Platform} where
  -- the cases of the `match` that insert the value
  unfoldable pub is_kept : Value P → Bool
  is_kept (bool _) = true
  is_kept (number _) = true
  is_kept (string []) = false
  is_kept (string (_ ∷ _)) = true
  is_kept (array nil) = false
  is_kept (array (cons _ _)) = true
  is_kept (object end) = false
  is_kept (object (entry _ _ _)) = true
  is_kept null = false

  unfoldable pub collect_defaults : Map P → List (Field P) → Map P
  unfolding is_kept
  collect_defaults m [] = m
  collect_defaults m (f ∷ fs) =
      let v = Field.default_value f in
      collect_defaults (if is_kept v then insert m (Field.name f) v else m) fs

  unfoldable pub default_value : PolicyType P → Value P
  unfolding collect_defaults
  default_value t = object (collect_defaults end t.fields)
