-- ===== src/Masks.antt =====
-- The masks of src/masks.rs as data. What they do to a report is in Masks/Apply.
pub mod Apply
use policyai.Prelude.{ℕ, Text, Bool, Option}
use policyai.Json.{Platform}
use policyai.Field.{OnConflict, T64}

pub record BoolMask : Type 0 where
  pub policy_index : ℕ
  pub name : Text
  pub mask : Text
  pub default : Option Bool
  pub on_conflict : OnConflict

pub record NumberMask (P : Platform) : Type 0 where
  pub policy_index : ℕ
  pub name : Text
  pub mask : Text
  pub default : Option (T64 P)
  pub value : Option P.Number
  pub on_conflict : OnConflict

pub record StringMask : Type 0 where
  pub policy_index : ℕ
  pub name : Text
  pub mask : Text
  pub default : Option Text
  pub value : Option Text
  pub on_conflict : OnConflict

pub record StringArrayMask : Type 0 where
  pub policy_index : ℕ
  pub name : Text
  pub mask : Text

pub record StringEnumMask : Type 0 where
  pub policy_index : ℕ
  pub name : Text
  pub mask : Text
  pub value : Option Text
  pub default : Option Text
  pub on_conflict : OnConflict
