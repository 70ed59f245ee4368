-- ===== src/Analysis/Tokens/Bounds.antt =====
-- How the statistics of src/analysis.rs lie to each other.
use policyai.Prelude.{
  ℕ, ◌*◌, ◌-◌, ◌≤◌, ◌<◌, ◌≡◌, sym, ◌∙◌, some, List, [], ◌∷◌, length, arith, All, All-imp,
}
use policyai.Json.{Platform}
use policyai.Manager.{sort}
use policyai.Analysis.Sorted.{length-sort, get_elem?-has, All-has, get_elem?-sorted, sort-IsSorted}
use policyai.Analysis.Percentiles.{exact, IsFloat, percentile_index-keeps, percentile_index-bound}
use policyai.Manager.Sorting.{has-sort}
use policyai.Analysis.Tokens.{Division, total, min, max, percentile_index, percentile, p50, p99}

min-cons : (v w : ℕ) (vs : List ℕ) → (min (v ∷ w ∷ vs) ≤ v) × (min (v ∷ w ∷ vs) ≤ min (w ∷ vs))
unfolding min
min-cons v w vs = (ground arith, ground arith)

min-one : (v : ℕ) → min (v ∷ []) ≤ v
unfolding min
min-one v = omega arith

min-least : (vs : List ℕ) → All (λ v. min vs ≤ v) vs
min-least [] = tt
min-least (v ∷ []) = (min-one v, tt)
min-least (v ∷ w ∷ vs) =
    let (l, m) = min-cons v w vs in
    (
      l,
      All-imp (λ u. min (w ∷ vs) ≤ u) (λ u. min (v ∷ w ∷ vs) ≤ u) (w ∷ vs)
          (λ u k. omega (arith, m, k)) (min-least (w ∷ vs)),
    )

max-cons : (v : ℕ) (vs : List ℕ) → (v ≤ max (v ∷ vs)) × (max vs ≤ max (v ∷ vs))
unfolding max
max-cons v vs = (ground arith, ground arith)

max-greatest : (vs : List ℕ) → All (λ v. v ≤ max vs) vs
max-greatest [] = tt
max-greatest (v ∷ vs) =
    let (l, m) = max-cons v vs in
    (
      l,
      All-imp (λ u. u ≤ max vs) (λ u. u ≤ max (v ∷ vs)) vs (λ u k. omega (arith, m, k))
          (max-greatest vs),
    )

-- The sum lies between those of as many copies of a lower and of an upper bound.
total-bounds :
    (a b : ℕ) (vs : List ℕ)
    → All (λ v. a ≤ v) vs
    → All (λ v. v ≤ b) vs
    → (length vs * a ≤ total vs) × (total vs ≤ length vs * b)
unfolding total
total-bounds a b [] h k = (omega arith, omega arith)
total-bounds a b (v ∷ vs) h k =
    let (l, m) = total-bounds a b vs h.1 k.1 in (ground (arith, l, h.0), ground (arith, m, k.0))

module _ {P : Platform} (D : Division P) where
  -- Of values of which there is one and at most 2^53, the median and the 99th percentile are found without
  -- a panic, and lie in this order between the minimum and the maximum, where the operations of `f64`
  -- keep the order and are exact on whole numbers up to 2^53. The total lies between as many times the
  -- minimum and as many times the maximum.
  pub p50-p99 :
      (v : ℕ) (vs : List ℕ)
      → IsFloat D
      → length (v ∷ vs) ≤ exact
      → let values = v ∷ vs in
        (median : ℕ) × (high : ℕ) × (p50 D values ≡ some median)
        × (p99 D values ≡ some high)
        × (min values ≤ median)
        × (median ≤ high)
        × (high ≤ max values)
        × (length values * min values ≤ total values)
        × (total values ≤ length values * max values)
  unfolding p50 p99 percentile
  p50-p99 v vs f few =
      let values = v ∷ vs in
      let sorted = sort values in
      let last = length sorted - 1 in
      let small : last ≤ exact = omega (arith, few, length-sort values) in
      let place : ℕ → ℕ = λ p. percentile_index D (D.of_nat p) last in
      let below : (p : ℕ) → p ≤ 100 → place p < length sorted =
        λ p l. omega (arith, percentile_index-bound D f p last l small, length-sort values) in
      let (x, a, i) = get_elem?-has sorted (place 50) (below 50 (omega arith)) in
      let (y, b, j) = get_elem?-has sorted (place 99) (below 99 (omega arith)) in
      let (l, m) =
        total-bounds (min values) (max values) values (min-least values) (max-greatest values) in
      (
        x,
        y,
        a,
        b,
        All-has (λ u. min values ≤ u) values x (min-least values) (sym (has-sort values x) ∙ i),
        get_elem?-sorted sorted (place 50) (place 99) x y (sort-IsSorted values)
            (percentile_index-keeps D f 50 99 last (omega arith) (omega arith) small) a b,
        All-has (λ u. u ≤ max values) values y (max-greatest values) (sym (has-sort values y) ∙ j),
        l,
        m,
      )
