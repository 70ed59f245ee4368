-- ===== src/Analysis/Tokens/Getters.antt =====
-- The getters of `TokenUsageAnalysis` in src/analysis.rs: one statistic of one list each. Those of a
-- percentile are none where the source panics.
use policyai.Prelude.{ℕ, Option}
use policyai.Json.{Platform}
use policyai.Analysis.Tokens.{Division, TokenUsageAnalysis, total, min, max, avg, p50, p99}

unfoldable policyai_total_input_tokens : TokenUsageAnalysis → ℕ
unfolding total
policyai_total_input_tokens a = total a.policyai_input_tokens

unfoldable policyai_min_input_tokens : TokenUsageAnalysis → ℕ
unfolding min
policyai_min_input_tokens a = min a.policyai_input_tokens

unfoldable policyai_max_input_tokens : TokenUsageAnalysis → ℕ
unfolding max
policyai_max_input_tokens a = max a.policyai_input_tokens

unfoldable policyai_total_output_tokens : TokenUsageAnalysis → ℕ
unfolding total
policyai_total_output_tokens a = total a.policyai_output_tokens

unfoldable policyai_min_output_tokens : TokenUsageAnalysis → ℕ
unfolding min
policyai_min_output_tokens a = min a.policyai_output_tokens

unfoldable policyai_max_output_tokens : TokenUsageAnalysis → ℕ
unfolding max
policyai_max_output_tokens a = max a.policyai_output_tokens

unfoldable policyai_total_cache_creation_tokens : TokenUsageAnalysis → ℕ
unfolding total
policyai_total_cache_creation_tokens a = total a.policyai_cache_creation_tokens

unfoldable policyai_total_cache_read_tokens : TokenUsageAnalysis → ℕ
unfolding total
policyai_total_cache_read_tokens a = total a.policyai_cache_read_tokens

unfoldable baseline_total_input_tokens : TokenUsageAnalysis → ℕ
unfolding total
baseline_total_input_tokens a = total a.baseline_input_tokens

unfoldable baseline_min_input_tokens : TokenUsageAnalysis → ℕ
unfolding min
baseline_min_input_tokens a = min a.baseline_input_tokens

unfoldable baseline_max_input_tokens : TokenUsageAnalysis → ℕ
unfolding max
baseline_max_input_tokens a = max a.baseline_input_tokens

unfoldable baseline_total_output_tokens : TokenUsageAnalysis → ℕ
unfolding total
baseline_total_output_tokens a = total a.baseline_output_tokens

unfoldable baseline_min_output_tokens : TokenUsageAnalysis → ℕ
unfolding min
baseline_min_output_tokens a = min a.baseline_output_tokens

unfoldable baseline_max_output_tokens : TokenUsageAnalysis → ℕ
unfolding max
baseline_max_output_tokens a = max a.baseline_output_tokens

unfoldable baseline_total_cache_creation_tokens : TokenUsageAnalysis → ℕ
unfolding total
baseline_total_cache_creation_tokens a = total a.baseline_cache_creation_tokens

unfoldable baseline_total_cache_read_tokens : TokenUsageAnalysis → ℕ
unfolding total
baseline_total_cache_read_tokens a = total a.baseline_cache_read_tokens

module _ {P : Platform} (D : Division P) where
  unfoldable policyai_avg_input_tokens : TokenUsageAnalysis → P.F64
  unfolding avg
  policyai_avg_input_tokens a = avg D a.policyai_input_tokens

  unfoldable policyai_p50_input_tokens : TokenUsageAnalysis → Option ℕ
  unfolding p50
  policyai_p50_input_tokens a = p50 D a.policyai_input_tokens

  unfoldable policyai_p99_input_tokens : TokenUsageAnalysis → Option ℕ
  unfolding p99
  policyai_p99_input_tokens a = p99 D a.policyai_input_tokens

  unfoldable policyai_avg_output_tokens : TokenUsageAnalysis → P.F64
  unfolding avg
  policyai_avg_output_tokens a = avg D a.policyai_output_tokens

  unfoldable policyai_p50_output_tokens : TokenUsageAnalysis → Option ℕ
  unfolding p50
  policyai_p50_output_tokens a = p50 D a.policyai_output_tokens

  unfoldable policyai_p99_output_tokens : TokenUsageAnalysis → Option ℕ
  unfolding p99
  policyai_p99_output_tokens a = p99 D a.policyai_output_tokens

  unfoldable policyai_avg_cache_creation_tokens : TokenUsageAnalysis → P.F64
  unfolding avg
  policyai_avg_cache_creation_tokens a = avg D a.policyai_cache_creation_tokens

  unfoldable policyai_p99_cache_creation_tokens : TokenUsageAnalysis → Option ℕ
  unfolding p99
  policyai_p99_cache_creation_tokens a = p99 D a.policyai_cache_creation_tokens

  unfoldable policyai_avg_cache_read_tokens : TokenUsageAnalysis → P.F64
  unfolding avg
  policyai_avg_cache_read_tokens a = avg D a.policyai_cache_read_tokens

  unfoldable policyai_p99_cache_read_tokens : TokenUsageAnalysis → Option ℕ
  unfolding p99
  policyai_p99_cache_read_tokens a = p99 D a.policyai_cache_read_tokens

  unfoldable policyai_avg_wall_clock_ms : TokenUsageAnalysis → P.F64
  unfolding avg
  policyai_avg_wall_clock_ms a = avg D a.policyai_wall_clock_ms

  unfoldable policyai_p50_wall_clock_ms : TokenUsageAnalysis → Option ℕ
  unfolding p50
  policyai_p50_wall_clock_ms a = p50 D a.policyai_wall_clock_ms

  unfoldable policyai_p99_wall_clock_ms : TokenUsageAnalysis → Option ℕ
  unfolding p99
  policyai_p99_wall_clock_ms a = p99 D a.policyai_wall_clock_ms

  unfoldable baseline_avg_input_tokens : TokenUsageAnalysis → P.F64
  unfolding avg
  baseline_avg_input_tokens a = avg D a.baseline_input_tokens

  unfoldable baseline_p50_input_tokens : TokenUsageAnalysis → Option ℕ
  unfolding p50
  baseline_p50_input_tokens a = p50 D a.baseline_input_tokens

  unfoldable baseline_p99_input_tokens : TokenUsageAnalysis → Option ℕ
  unfolding p99
  baseline_p99_input_tokens a = p99 D a.baseline_input_tokens

  unfoldable baseline_avg_output_tokens : TokenUsageAnalysis → P.F64
  unfolding avg
  baseline_avg_output_tokens a = avg D a.baseline_output_tokens

  unfoldable baseline_p50_output_tokens : TokenUsageAnalysis → Option ℕ
  unfolding p50
  baseline_p50_output_tokens a = p50 D a.baseline_output_tokens

  unfoldable baseline_p99_output_tokens : TokenUsageAnalysis → Option ℕ
  unfolding p99
  baseline_p99_output_tokens a = p99 D a.baseline_output_tokens

  unfoldable baseline_avg_cache_creation_tokens : TokenUsageAnalysis → P.F64
  unfolding avg
  baseline_avg_cache_creation_tokens a = avg D a.baseline_cache_creation_tokens

  unfoldable baseline_p99_cache_creation_tokens : TokenUsageAnalysis → Option ℕ
  unfolding p99
  baseline_p99_cache_creation_tokens a = p99 D a.baseline_cache_creation_tokens

  unfoldable baseline_avg_cache_read_tokens : TokenUsageAnalysis → P.F64
  unfolding avg
  baseline_avg_cache_read_tokens a = avg D a.baseline_cache_read_tokens

  unfoldable baseline_p99_cache_read_tokens : TokenUsageAnalysis → Option ℕ
  unfolding p99
  baseline_p99_cache_read_tokens a = p99 D a.baseline_cache_read_tokens

  unfoldable baseline_avg_wall_clock_ms : TokenUsageAnalysis → P.F64
  unfolding avg
  baseline_avg_wall_clock_ms a = avg D a.baseline_wall_clock_ms

  unfoldable baseline_p50_wall_clock_ms : TokenUsageAnalysis → Option ℕ
  unfolding p50
  baseline_p50_wall_clock_ms a = p50 D a.baseline_wall_clock_ms

  unfoldable baseline_p99_wall_clock_ms : TokenUsageAnalysis → Option ℕ
  unfolding p99
  baseline_p99_wall_clock_ms a = p99 D a.baseline_wall_clock_ms
