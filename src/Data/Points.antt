-- ===== src/Data/Points.antt =====
-- The test cases and the reports of an evaluation in src/data.rs.
use policyai.Prelude.{Text, Option, List}
use policyai.Json.{Platform, Value}
use policyai.PolicyType.{Policy}
use policyai.Report.{Report}
use policyai.Usage.{Claudius}
use policyai.Analysis.{Metrics}

pub record ConflictField : Type 0 where
  pub conflict_type : Text
  pub field_name : Text

pub record TestDataPoint (P : Platform) : Type 0 where
  pub text : Text
  pub policies : List (Policy P)
  pub expected : Option (Value P)
  pub conflicts : Option (List ConflictField)

pub record EvaluationReport {P : Platform} (C : Claudius P) : Type 0 where
  pub input : TestDataPoint P
  pub metrics : Metrics C
  pub report : Report P
  pub output : Value P
  pub baseline : Option (Value P)
