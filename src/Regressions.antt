-- ===== src/Regressions.antt =====
-- src/bin/policyai-extract-regressions.rs: which reports of an evaluation are regressions, and when
-- two values match under the options.
pub mod Options
pub mod Pairs
use policyai.Prelude.{
  ℕ, zero, suc, ◌+◌, Text, text_eq, Bool, true, false, not, ◌&&◌, Option, none, some, List, [], ◌∷◌,
  ◌++◌, map, ◌==◌, if◌then◌else◌,
}
use policyai.Json.{
  Platform, Value, null, bool, number, string, array, object, Values, nil, cons, Map, end, entry,
  get, to_list,
}
use policyai.Json.Equality.{value_eq}
use policyai.Evaluate.{Arithmetic}
use policyai.Usage.{Claudius}
use policyai.Data.Points.{EvaluationReport}

pub record Args : Type 0 where
  pub include_baseline_failures : Bool
  pub ignore_whitespace : Bool
  pub ignore_array_order : Bool

-- What the comparison uses beyond `Arithmetic`: `char::is_whitespace`, the product of two `f64`, and
-- the literal 0.001.
pub record Comparison (P : Platform) : Type 0 where
  pub is_whitespace : ℕ → Bool
  pub multiply : P.F64 → P.F64 → P.F64
  pub thousandth : P.F64

flush : Text → List Text → List Text
flush [] words = words
flush (c ∷ s) words = (c ∷ s) ∷ words

-- `split_whitespace`, where `word` was read since the last white space
unfoldable split_from : (ℕ → Bool) → Text → Text → List Text
unfolding flush
split_from is_whitespace word [] = flush word []
split_from is_whitespace word (c ∷ s) = elim (is_whitespace c) [
  | true ↦ flush word (split_from is_whitespace [] s)
  | false ↦ split_from is_whitespace (word ++ c ∷ []) s
]

-- `join(" ")`
unfoldable join_words : List Text → Text
join_words [] = []
join_words (w ∷ []) = w
join_words (v ∷ w ∷ ws) = v ++ b' ' ∷ join_words (w ∷ ws)

unfoldable pub normalize_whitespace : (ℕ → Bool) → Text → Text
unfolding split_from join_words
normalize_whitespace is_whitespace s = join_words (split_from is_whitespace [] s)

module _ {P : Platform} where
  -- `Vec::len` and `Map::len`
  abbrev pub count : Values P → ℕ
  count nil = 0
  count (cons v vs) = suc (count vs)

  abbrev pub size : Map P → ℕ
  size end = 0
  size (entry k v m) = suc (size m)

  pub keep : Bool × Value P → Option (List (Bool × Value P)) → Option (List (Bool × Value P))
  keep b none = none
  keep b (some bs) = some (b ∷ bs)

  -- the inner loop of `arrays_match_unordered`, over the elements with their flags in `b_used`: the
  -- first that is free and matches is used
  unfoldable pub use_first :
      (Value P → Bool) → List (Bool × Value P) → Option (List (Bool × Value P))
  unfolding keep
  use_first matches [] = none
  use_first matches (b ∷ bs) =
      if not b.0 && matches b.1 then some ((true, b.1) ∷ bs) else keep b (use_first matches bs)

  -- `vec![false; b.len()]`, with the elements
  abbrev pub unused : Values P → List (Bool × Value P)
  unused nil = []
  unused (cons v vs) = (false, v) ∷ unused vs

module _ {P : Platform} (A : Arithmetic P) (C : Comparison P) where
  close_f64 : P.Number → P.Number → Option P.F64 → Option P.F64 → Bool
  close_f64 a b (some x) (some y) =
      A.at_most (A.abs (A.subtract x y)) (C.multiply (A.abs y) C.thousandth)
  close_f64 a b _ _ = P.number_eq a b

  unfoldable numbers_match : P.Number → P.Number → Bool
  unfolding close_f64
  numbers_match a b = close_f64 a b (P.as_f64 a) (P.as_f64 b)

  unfoldable pub strings_match : Args → Text → Text → Bool
  unfolding normalize_whitespace
  strings_match o a b =
      if o.ignore_whitespace
      then text_eq (normalize_whitespace C.is_whitespace a) (normalize_whitespace C.is_whitespace b)
      else text_eq a b

  unfoldable mutual
    unfolding numbers_match strings_match use_first

    pub values_match_recursive : Args → Value P → Value P → Bool
    values_match_recursive o (number a) (number b) = numbers_match a b
    values_match_recursive o (string a) (string b) = strings_match o a b
    values_match_recursive o (array a) (array b) = elim o.ignore_array_order [
      | true ↦ if not (count a == count b) then false else match_all o a (unused b)
      | false ↦ if not (count a == count b) then false else zip_all o a b
    ]
    values_match_recursive o (object a) (object b) =
        if not (size a == size b) then false else entries_match o a b
    values_match_recursive o a b = value_eq a b

    -- the loop of `arrays_match_ordered`
    pub zip_all : Args → Values P → Values P → Bool
    zip_all o nil ws = true
    zip_all o (cons v vs) nil = true
    zip_all o (cons v vs) (cons w ws) = values_match_recursive o v w && zip_all o vs ws

    -- the outer loop of `arrays_match_unordered`
    pub match_all : Args → Values P → List (Bool × Value P) → Bool
    match_all o nil bs = true
    match_all o (cons v vs) bs = elim (use_first (values_match_recursive o v) bs) [
      | none ↦ false
      | some bs' ↦ match_all o vs bs'
    ]

    pub entries_match : Args → Map P → Map P → Bool
    entries_match o end n = true
    entries_match o (entry k v m) n = elim (get n k) [
      | none ↦ false
      | some w ↦ values_match_recursive o v w && entries_match o m n
    ]

  -- with what was expected and the output of the baseline
  regressed : Args → Value P → Option (Value P) → Option (Value P) → Bool
  unfolding values_match_recursive
  regressed o output none baseline = false
  regressed o output (some expected) none = false
  regressed o output (some expected) (some baseline) =
      let policyai_passes = values_match_recursive o output expected in
      let baseline_passes = values_match_recursive o baseline expected in
      if baseline_passes && not policyai_passes
      then true
      else if o.include_baseline_failures && not baseline_passes && not policyai_passes
      then true
      else false

  unfoldable pub is_regression : {D : Claudius P} → EvaluationReport D → Args → Bool
  unfolding regressed
  is_regression report o = regressed o report.output report.input.expected report.baseline
