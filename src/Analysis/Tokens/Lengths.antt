-- ===== src/Analysis/Tokens/Lengths.antt =====
-- What the lists of `TokenUsageAnalysis` in src/analysis.rs have in common.
use policyai.Prelude.{
  ap, ◌%◌, ◌^◌, ◌++◌, ℕ, ◌+◌, ◌≤◌, ◌≡◌, refl, Option, none, some, List, [], ◌∷◌, length,
  length-append, arith,
}
use policyai.Json.{Platform}
use policyai.Usage.{Claudius, Usage}
use policyai.Analysis.{Metrics}
use policyai.Analysis.Tokens.{
  Readings, TokenUsageAnalysis, no_usage, add_policyai_tokens, add_policyai_usage,
  add_baseline_tokens, add_baseline_usage, add_usage_report,
}

-- the four lists of tokens, the times and the iterations of at most so many reports
abbrev pub Aligned : ℕ → List ℕ → List ℕ → List ℕ → List ℕ → List ℕ → List ℕ → Type 0
Aligned n input output creation read times iterations =
    (length output ≡ length input)
    × (length creation ≡ length input)
    × (length read ≡ length input)
    × (length iterations ≡ length times)
    × (length input ≤ length times)
    × (length times ≤ n)

abbrev pub PolicyaiAligned : ℕ → TokenUsageAnalysis → Type 0
PolicyaiAligned n a =
    Aligned n a.policyai_input_tokens a.policyai_output_tokens a.policyai_cache_creation_tokens
      a.policyai_cache_read_tokens a.policyai_wall_clock_ms a.policyai_iterations

abbrev pub BaselineAligned : ℕ → TokenUsageAnalysis → Type 0
BaselineAligned n a =
    Aligned n a.baseline_input_tokens a.baseline_output_tokens a.baseline_cache_creation_tokens
      a.baseline_cache_read_tokens a.baseline_wall_clock_ms a.baseline_iterations

-- Of policyai and of the baseline, there are as many numbers of each kind of tokens, and as many times
-- as iterations, at least as many as of tokens, and at most as many as reports.
unfoldable pub IsAligned : TokenUsageAnalysis → Type 0
IsAligned a = PolicyaiAligned a.total_reports a × BaselineAligned a.total_reports a

pub no_usage-IsAligned : IsAligned no_usage
unfolding IsAligned
no_usage-IsAligned = (
  (refl, refl, refl, refl, omega arith, omega arith),
  (refl, refl, refl, refl, omega arith, omega arith),
)

length-push : (l : List ℕ) (n : ℕ) → length (l ++ n ∷ []) ≡ length l + 1
length-push l n = length-append l (n ∷ [])

module _ {P : Platform} {C : Claudius P} (R : Readings C) where
  add_policyai_tokens-aligned :
      (o : Option C.Tokens) (a : TokenUsageAnalysis) (n : ℕ)
      → PolicyaiAligned n a
      → let b = add_policyai_tokens R o a in
        (length b.policyai_output_tokens ≡ length b.policyai_input_tokens)
        × (length b.policyai_cache_creation_tokens ≡ length b.policyai_input_tokens)
        × (length b.policyai_cache_read_tokens ≡ length b.policyai_input_tokens)
        × (length b.policyai_input_tokens ≤ length a.policyai_input_tokens + 1)
        × (b.policyai_wall_clock_ms ≡ a.policyai_wall_clock_ms)
        × (b.policyai_iterations ≡ a.policyai_iterations)
  unfolding add_policyai_tokens
  add_policyai_tokens-aligned none a n h = (h.0, h.1, h.2, omega arith, refl, refl)
  add_policyai_tokens-aligned (some t) a n h =
      let i = length-push a.policyai_input_tokens in
      let o = length-push a.policyai_output_tokens in
      let c = length-push a.policyai_cache_creation_tokens in
      let r = length-push a.policyai_cache_read_tokens in
      (rw (i, o, h.0), rw (i, c, h.1), rw (i, r, h.2), omega (arith, i _), refl, refl)

  add_policyai_usage-aligned :
      (u : Option (Usage C)) (a : TokenUsageAnalysis) (n : ℕ)
      → PolicyaiAligned n a
      → PolicyaiAligned (n + 1) (add_policyai_usage R u a)
  unfolding add_policyai_usage
  add_policyai_usage-aligned none a n h = (h.0, h.1, h.2, h.3, h.4, omega (arith, h.5))
  add_policyai_usage-aligned (some usage) a n h =
      let (o, c, r, i, w, t) = add_policyai_tokens-aligned usage.claudius_usage a n h in
      let b = add_policyai_tokens R usage.claudius_usage a in
      let ms = length-push b.policyai_wall_clock_ms (R.as_millis usage.wall_clock_time % 2 ^ 64) in
      let its = length-push b.policyai_iterations usage.iterations in
      let w' = ap length w in
      let t' = ap length t in
      (
        o,
        c,
        r,
        omega (arith, ms, its, w', t', h.3),
        omega (arith, ms, w', i, h.4),
        omega (arith, ms, w', h.5),
      )

  add_baseline_tokens-aligned :
      (o : Option C.Tokens) (a : TokenUsageAnalysis) (n : ℕ)
      → BaselineAligned n a
      → let b = add_baseline_tokens R o a in
        (length b.baseline_output_tokens ≡ length b.baseline_input_tokens)
        × (length b.baseline_cache_creation_tokens ≡ length b.baseline_input_tokens)
        × (length b.baseline_cache_read_tokens ≡ length b.baseline_input_tokens)
        × (length b.baseline_input_tokens ≤ length a.baseline_input_tokens + 1)
        × (b.baseline_wall_clock_ms ≡ a.baseline_wall_clock_ms)
        × (b.baseline_iterations ≡ a.baseline_iterations)
  unfolding add_baseline_tokens
  add_baseline_tokens-aligned none a n h = (h.0, h.1, h.2, omega arith, refl, refl)
  add_baseline_tokens-aligned (some t) a n h =
      let i = length-push a.baseline_input_tokens in
      let o = length-push a.baseline_output_tokens in
      let c = length-push a.baseline_cache_creation_tokens in
      let r = length-push a.baseline_cache_read_tokens in
      (rw (i, o, h.0), rw (i, c, h.1), rw (i, r, h.2), omega (arith, i _), refl, refl)

  add_baseline_usage-aligned :
      (u : Option (Usage C)) (a : TokenUsageAnalysis) (n : ℕ)
      → BaselineAligned n a
      → BaselineAligned (n + 1) (add_baseline_usage R u a)
  unfolding add_baseline_usage
  add_baseline_usage-aligned none a n h = (h.0, h.1, h.2, h.3, h.4, omega (arith, h.5))
  add_baseline_usage-aligned (some usage) a n h =
      let (o, c, r, i, w, t) = add_baseline_tokens-aligned usage.claudius_usage a n h in
      let b = add_baseline_tokens R usage.claudius_usage a in
      let ms = length-push b.baseline_wall_clock_ms (R.as_millis usage.wall_clock_time % 2 ^ 64) in
      let its = length-push b.baseline_iterations usage.iterations in
      let w' = ap length w in
      let t' = ap length t in
      (
        o,
        c,
        r,
        omega (arith, ms, its, w', t', h.3),
        omega (arith, ms, w', i, h.4),
        omega (arith, ms, w', h.5),
      )

  -- The usage of policyai changes nothing of baseline.
  add_policyai_tokens-keeps :
      (o : Option C.Tokens) (a : TokenUsageAnalysis) (n : ℕ)
      → BaselineAligned n a
      → BaselineAligned n (add_policyai_tokens R o a)
        × ((add_policyai_tokens R o a).total_reports ≡ a.total_reports)
  unfolding add_policyai_tokens
  add_policyai_tokens-keeps none a n h = (h, refl)
  add_policyai_tokens-keeps (some t) a n h = (h, refl)

  add_policyai_usage-keeps :
      (u : Option (Usage C)) (a : TokenUsageAnalysis) (n : ℕ)
      → BaselineAligned n a
      → BaselineAligned n (add_policyai_usage R u a)
        × ((add_policyai_usage R u a).total_reports ≡ a.total_reports)
  unfolding add_policyai_usage
  add_policyai_usage-keeps none a n h = (h, refl)
  add_policyai_usage-keeps (some usage) a n h = add_policyai_tokens-keeps usage.claudius_usage a n h

  -- The usage of baseline changes nothing of policyai.
  add_baseline_tokens-keeps :
      (o : Option C.Tokens) (a : TokenUsageAnalysis) (n : ℕ)
      → PolicyaiAligned n a
      → PolicyaiAligned n (add_baseline_tokens R o a)
        × ((add_baseline_tokens R o a).total_reports ≡ a.total_reports)
  unfolding add_baseline_tokens
  add_baseline_tokens-keeps none a n h = (h, refl)
  add_baseline_tokens-keeps (some t) a n h = (h, refl)

  add_baseline_usage-keeps :
      (u : Option (Usage C)) (a : TokenUsageAnalysis) (n : ℕ)
      → PolicyaiAligned n a
      → PolicyaiAligned n (add_baseline_usage R u a)
        × ((add_baseline_usage R u a).total_reports ≡ a.total_reports)
  unfolding add_baseline_usage
  add_baseline_usage-keeps none a n h = (h, refl)
  add_baseline_usage-keeps (some usage) a n h = add_baseline_tokens-keeps usage.claudius_usage a n h

  -- `add_report` keeps the lists of `TokenUsageAnalysis` aligned, whichever usage the report has: of
  -- policyai and of the baseline, there are as many numbers of each kind of tokens, and as many times
  -- as iterations, at least as many as of tokens, and at most as many as reports.
  pub add_usage_report-IsAligned :
      (m : Metrics C) (a : TokenUsageAnalysis) → IsAligned a → IsAligned (add_usage_report R m a)
  unfolding add_usage_report IsAligned
  add_usage_report-IsAligned m a h =
      let n = a.total_reports in
      let a1 : TokenUsageAnalysis = record a { total_reports = n + 1 } in
      let a2 = add_policyai_usage R m.policyai_usage a1 in
      let p = add_policyai_usage-aligned m.policyai_usage a1 n h.0 in
      let (b, e) = add_policyai_usage-keeps m.policyai_usage a1 n h.1 in
      let (p', e') = add_baseline_usage-keeps m.baseline_usage a2 (n + 1) p in
      rw (e', e) (p', add_baseline_usage-aligned m.baseline_usage a2 n b)
