-- ===== src/Analysis/Tokens.antt =====
-- `TokenUsageAnalysis` of src/analysis.rs: the tokens, times and iterations of the reports, and what is
-- told of them.
pub mod Bounds
pub mod Lengths
mod Getters
use policyai.Prelude.{
  ℕ, ◌+◌, ◌%◌, ◌^◌, Option, none, some, List, [], ◌∷◌, ◌++◌, length, leb, ◌-◌, get_elem?,
  if◌then◌else◌,
}
use policyai.Json.{Platform}
use policyai.Usage.{Claudius, Usage}
use policyai.Manager.{sort}
use policyai.Analysis.{Metrics}

-- What the analysis reads of `claudius::Usage`, each number as a `usize`, and of a duration.
pub record Readings {P : Platform} (C : Claudius P) : Type 0 where
  pub input_tokens : C.Tokens → ℕ
  pub output_tokens : C.Tokens → ℕ
  pub cache_creation_input_tokens : C.Tokens → Option ℕ
  pub cache_read_input_tokens : C.Tokens → Option ℕ
  pub as_millis : C.Duration → ℕ

-- The arithmetic of `f64` that the analysis uses.
pub record Division (P : Platform) : Type 0 where
  pub zero_f64 : P.F64
  -- `as f64`, and the literals that are whole numbers, such as 100.0
  pub of_nat : ℕ → P.F64
  pub divide : P.F64 → P.F64 → P.F64
  pub multiply : P.F64 → P.F64 → P.F64
  pub round : P.F64 → P.F64
  -- `as usize`
  pub as_usize : P.F64 → ℕ

pub record TokenUsageAnalysis : Type 0 where
  pub total_reports : ℕ
  pub policyai_input_tokens : List ℕ
  pub policyai_output_tokens : List ℕ
  pub policyai_cache_creation_tokens : List ℕ
  pub policyai_cache_read_tokens : List ℕ
  pub baseline_input_tokens : List ℕ
  pub baseline_output_tokens : List ℕ
  pub baseline_cache_creation_tokens : List ℕ
  pub baseline_cache_read_tokens : List ℕ
  pub policyai_wall_clock_ms : List ℕ
  pub baseline_wall_clock_ms : List ℕ
  pub policyai_iterations : List ℕ
  pub baseline_iterations : List ℕ

-- `TokenUsageAnalysis::new`
abbrev pub no_usage : TokenUsageAnalysis
no_usage = record {
  total_reports = 0;
  policyai_input_tokens = [];
  policyai_output_tokens = [];
  policyai_cache_creation_tokens = [];
  policyai_cache_read_tokens = [];
  baseline_input_tokens = [];
  baseline_output_tokens = [];
  baseline_cache_creation_tokens = [];
  baseline_cache_read_tokens = [];
  policyai_wall_clock_ms = [];
  baseline_wall_clock_ms = [];
  policyai_iterations = [];
  baseline_iterations = [];
}

abbrev unwrap_or_zero : Option ℕ → ℕ
unwrap_or_zero none = 0
unwrap_or_zero (some n) = n

module _ {P : Platform} {C : Claudius P} (R : Readings C) where
  -- the tokens of policyai
  unfoldable pub add_policyai_tokens : Option C.Tokens → TokenUsageAnalysis → TokenUsageAnalysis
  add_policyai_tokens none a = a
  add_policyai_tokens (some t) a = record a {
    policyai_input_tokens = a.policyai_input_tokens ++ R.input_tokens t ∷ [];
    policyai_output_tokens = a.policyai_output_tokens ++ R.output_tokens t ∷ [];
    policyai_cache_creation_tokens =
        a.policyai_cache_creation_tokens ++ unwrap_or_zero (R.cache_creation_input_tokens t) ∷ [];
    policyai_cache_read_tokens =
        a.policyai_cache_read_tokens ++ unwrap_or_zero (R.cache_read_input_tokens t) ∷ [];
  }

  unfoldable pub add_policyai_usage : Option (Usage C) → TokenUsageAnalysis → TokenUsageAnalysis
  unfolding add_policyai_tokens
  add_policyai_usage none a = a
  add_policyai_usage (some usage) a =
      let b = add_policyai_tokens usage.claudius_usage a in
      record b {
        policyai_wall_clock_ms =
            b.policyai_wall_clock_ms ++ R.as_millis usage.wall_clock_time % 2 ^ 64 ∷ [];
        policyai_iterations = b.policyai_iterations ++ usage.iterations ∷ [];
      }

  -- the tokens of baseline
  unfoldable pub add_baseline_tokens : Option C.Tokens → TokenUsageAnalysis → TokenUsageAnalysis
  add_baseline_tokens none a = a
  add_baseline_tokens (some t) a = record a {
    baseline_input_tokens = a.baseline_input_tokens ++ R.input_tokens t ∷ [];
    baseline_output_tokens = a.baseline_output_tokens ++ R.output_tokens t ∷ [];
    baseline_cache_creation_tokens =
        a.baseline_cache_creation_tokens ++ unwrap_or_zero (R.cache_creation_input_tokens t) ∷ [];
    baseline_cache_read_tokens =
        a.baseline_cache_read_tokens ++ unwrap_or_zero (R.cache_read_input_tokens t) ∷ [];
  }

  unfoldable pub add_baseline_usage : Option (Usage C) → TokenUsageAnalysis → TokenUsageAnalysis
  unfolding add_baseline_tokens
  add_baseline_usage none a = a
  add_baseline_usage (some usage) a =
      let b = add_baseline_tokens usage.claudius_usage a in
      record b {
        baseline_wall_clock_ms =
            b.baseline_wall_clock_ms ++ R.as_millis usage.wall_clock_time % 2 ^ 64 ∷ [];
        baseline_iterations = b.baseline_iterations ++ usage.iterations ∷ [];
      }

  -- `TokenUsageAnalysis::add_report`
  unfoldable pub add_usage_report : Metrics C → TokenUsageAnalysis → TokenUsageAnalysis
  unfolding add_policyai_usage add_baseline_usage
  add_usage_report m a =
      add_baseline_usage m.baseline_usage
        (add_policyai_usage m.policyai_usage (record a { total_reports = a.total_reports + 1 }))

unfoldable pub total : List ℕ → ℕ
total [] = 0
total (v ∷ vs) = v + total vs

-- `min` and `max` of the values, 0 if there are none
unfoldable pub min : List ℕ → ℕ
min [] = 0
min (v ∷ []) = v
min (v ∷ w ∷ vs) = let m = min (w ∷ vs) in if leb v m then v else m

unfoldable pub max : List ℕ → ℕ
max [] = 0
max (v ∷ vs) = let m = max vs in if leb v m then m else v

module _ {P : Platform} (D : Division P) where
  -- `avg` and `avg_u64`
  unfoldable pub avg : List ℕ → P.F64
  unfolding total
  avg [] = D.zero_f64
  avg (v ∷ vs) = D.divide (D.of_nat (total (v ∷ vs))) (D.of_nat (length (v ∷ vs)))

  -- `((p / 100.0) * (sorted.len() - 1) as f64).round() as usize`, for the last index
  unfoldable pub percentile_index : P.F64 → ℕ → ℕ
  percentile_index p last =
      D.as_usize (D.round (D.multiply (D.divide p (D.of_nat 100)) (D.of_nat last)))

  -- `percentile` and `percentile_u64`: an index that is out of range panics
  unfoldable pub percentile : P.F64 → List ℕ → Option ℕ
  unfolding percentile_index
  percentile p [] = some 0
  percentile p (v ∷ vs) =
      let sorted = sort (v ∷ vs) in get_elem? sorted (percentile_index p (length sorted - 1))

  -- `p50` and `p50_u64`
  unfoldable pub p50 : List ℕ → Option ℕ
  unfolding percentile
  p50 vs = percentile (D.of_nat 50) vs

  -- `p99` and `p99_u64`
  unfoldable pub p99 : List ℕ → Option ℕ
  unfolding percentile
  p99 vs = percentile (D.of_nat 99) vs
