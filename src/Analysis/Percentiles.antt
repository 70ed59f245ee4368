-- ===== src/Analysis/Percentiles.antt =====
-- The percentiles of a list of values.
use policyai.Prelude.{
  ℕ, ◌+◌, ◌-◌, ◌^◌, ◌≤◌, ◌<◌, ◌≡◌, sym, ap, ◌∙◌, true, ◌||◌, some, List, ◌∷◌, length, get_elem?,
  arith, leb,
}
use policyai.Json.{Platform}
use policyai.Manager.{sort, has}
use policyai.Manager.Sorting.{has-sort}
use policyai.Analysis.Sorted.{
  length-sort, get_elem?-has, sort-IsSorted, how_many, how_many-sort, at_most-sorted,
  at_least-sorted,
}
use policyai.Analysis.Tokens.{Division, percentile_index, percentile}

-- Up to this number, every whole number is an `f64`.
abbrev pub exact : ℕ
exact = 2 ^ 53

-- `<=` of `f64`, which no NaN satisfies
abbrev pub AtMost : (P : Platform) → P.F64 → P.F64 → Type 0
AtMost P a b = (P.f64_lt a b || P.f64_eq a b) ≡ true

-- What IEEE 754 says of the operations: they round, but keep the order, and are exact where the result
-- is a whole number that has an `f64`.
pub record IsFloat {P : Platform} (D : Division P) : Type 0 where
  pub of_nat_keeps : (m n : ℕ) → m ≤ n → AtMost P (D.of_nat m) (D.of_nat n)
  pub divide_keeps :
      (a b : P.F64)
      → AtMost P a b
      → AtMost P (D.divide a (D.of_nat 100)) (D.divide b (D.of_nat 100))
  pub divide_self : D.divide (D.of_nat 100) (D.of_nat 100) ≡ D.of_nat 1
  pub divide_zero : D.divide (D.of_nat 0) (D.of_nat 100) ≡ D.of_nat 0
  -- for factors between 0 and 1
  pub multiply_keeps :
      (a b : P.F64) (n : ℕ)
      → n ≤ exact
      → AtMost P (D.of_nat 0) a
      → AtMost P a b
      → AtMost P b (D.of_nat 1)
      → AtMost P (D.multiply a (D.of_nat n)) (D.multiply b (D.of_nat n))
  pub multiply_one : (n : ℕ) → D.multiply (D.of_nat 1) (D.of_nat n) ≡ D.of_nat n
  pub round_keeps : (a b : P.F64) → AtMost P a b → AtMost P (D.round a) (D.round b)
  pub as_usize_keeps : (a b : P.F64) → AtMost P a b → D.as_usize a ≤ D.as_usize b
  pub round_whole : (n : ℕ) → n ≤ exact → D.as_usize (D.round (D.of_nat n)) ≡ n

module _ {P : Platform} (D : Division P) (f : IsFloat D) where
  -- A larger percentage has no smaller an index.
  pub percentile_index-keeps :
      (p q last : ℕ)
      → p ≤ q
      → q ≤ 100
      → last ≤ exact
      → percentile_index D (D.of_nat p) last ≤ percentile_index D (D.of_nat q) last
  unfolding percentile_index
  percentile_index-keeps p q last l m n =
      let low = f.divide_keeps _ _ (f.of_nat_keeps 0 p (omega arith)) in
      let high = f.divide_keeps _ _ (f.of_nat_keeps q 100 m) in
      f.as_usize_keeps _ _ (
        f.round_keeps _ _ (
          f.multiply_keeps _ _ last n (rw f.divide_zero at low)
            (f.divide_keeps _ _ (f.of_nat_keeps p q l)) (rw f.divide_self at high)))

  percentile_index-last : (last : ℕ) → last ≤ exact → percentile_index D (D.of_nat 100) last ≡ last
  unfolding percentile_index
  percentile_index-last last l =
      rw (percentile_index, f.divide_self, f.multiply_one last) (f.round_whole last l)

  -- The index of a percentage is at most the last one.
  pub percentile_index-bound :
      (p last : ℕ) → p ≤ 100 → last ≤ exact → percentile_index D (D.of_nat p) last ≤ last
  percentile_index-bound p last l m =
      omega
        (arith, percentile_index-keeps p 100 last l (omega arith) m, percentile_index-last last m)

  -- Of values of which there is one and at most 2^53, a percentile of at most 100 is found without a panic,
  -- where the operations of `f64` keep the order and are exact on whole numbers up to 2^53. It is one of the
  -- values; at least as many values as its index and one more are no larger, and at least all but as many
  -- as its index are no smaller. The index is the one that the formula of the code gives, which is at most
  -- the last one.
  pub percentile_lem :
      (p v : ℕ) (vs : List ℕ)
      → p ≤ 100
      → length (v ∷ vs) ≤ exact
      → let values = v ∷ vs in
        let index = percentile_index D (D.of_nat p) (length values - 1) in
        (x : ℕ) × (percentile D (D.of_nat p) values ≡ some x)
        × (has values x ≡ true)
        × (index < length values)
        × (index + 1 ≤ how_many (λ y. leb y x) values)
        × (length values ≤ index + how_many (λ y. leb x y) values)
  unfolding percentile
  percentile_lem p v vs l m =
      let values = v ∷ vs in
      let sorted = sort values in
      let index = percentile_index D (D.of_nat p) (length values - 1) in
      let same = length-sort values in
      let below : index < length values =
        omega (arith, percentile_index-bound p (length values - 1) l (omega (arith, m))) in
      let (x, e, i) = get_elem?-has sorted index (omega (arith, below, same)) in
      (
        x,
        ap (λ n. get_elem? sorted (percentile_index D (D.of_nat p) (n - 1))) same ∙ e,
        sym (has-sort values x) ∙ i,
        below,
        omega (
          arith,
          at_most-sorted sorted index x (sort-IsSorted values) e,
          how_many-sort (λ y. leb y x) values,
        ),
        omega (
          arith,
          at_least-sorted sorted index x (sort-IsSorted values) e,
          how_many-sort (λ y. leb x y) values,
          same,
        ),
      )
