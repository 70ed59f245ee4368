-- ===== src/Analysis/Sorted.antt =====
-- The sorted copy that `percentile` of src/analysis.rs makes, and what stands where in it.
use policyai.Prelude.{
  ℕ, zero, suc, ◌+◌, ◌≤◌, ◌<◌, ◌≡◌, refl, sym, ap, ◌∙◌, true, Bool, some, List, [], ◌∷◌, length,
  get_elem?, ◌==◌, ==_iff, leb, arith, All, All-imp, Bool-cases, or-cases, inl, inr, if◌then◌else◌,
}
use policyai.Manager.{sort, insert_sorted, has}

length-insert_sorted : (n : ℕ) (ms : List ℕ) → length (insert_sorted n ms) ≡ suc (length ms)
unfolding insert_sorted
length-insert_sorted n [] = refl
length-insert_sorted n (m ∷ ms) = elim (Bool-cases (leb n m)) [
  | inl below ↦ rw below refl
  | inr above ↦ rw above (ap suc (length-insert_sorted n ms))
]

pub length-sort : (ns : List ℕ) → length (sort ns) ≡ length ns
unfolding sort
length-sort [] = refl
length-sort (n ∷ ns) = length-insert_sorted n (sort ns) ∙ ap suc (length-sort ns)

-- an index below the length finds an element
pub get_elem?-has :
    (ns : List ℕ) (i : ℕ) → i < length ns → (x : ℕ) × (get_elem? ns i ≡ some x) × (has ns x ≡ true)
unfolding has
get_elem?-has [] i lt = absurd (omega (arith, lt))
get_elem?-has (n ∷ ns) zero lt = (n, refl, ground arith)
get_elem?-has (n ∷ ns) (suc i) lt =
    let rest = get_elem?-has ns i (omega (arith, lt)) in (rest.0, rest.1, ground (arith, rest.2))

-- no element is above one after it
unfoldable pub IsSorted : List ℕ → Type 0
IsSorted [] = Unit
IsSorted (n ∷ ns) = All (λ m. n ≤ m) ns × IsSorted ns

All-insert_sorted :
    (k n : ℕ) (ms : List ℕ) → k ≤ n → All (λ m. k ≤ m) ms → All (λ m. k ≤ m) (insert_sorted n ms)
unfolding insert_sorted
All-insert_sorted k n [] l h = (l, tt)
All-insert_sorted k n (m ∷ ms) l h = elim (Bool-cases (leb n m)) [
  | inl e ↦ rw e (l, h)
  | inr e ↦ rw e (h.0, All-insert_sorted k n ms l h.1)
]

insert_sorted-IsSorted : (n : ℕ) (ms : List ℕ) → IsSorted ms → IsSorted (insert_sorted n ms)
unfolding insert_sorted IsSorted
insert_sorted-IsSorted n [] h = (tt, tt)
insert_sorted-IsSorted n (m ∷ ms) h = elim (Bool-cases (leb n m)) [
  | inl e ↦
      let l : n ≤ m = ground arith in
      rw e ((l, All-imp (λ k. m ≤ k) (λ k. n ≤ k) ms (λ k a. omega arith) h.0), h)
  | inr e ↦ rw e (All-insert_sorted m n ms (ground arith) h.0, insert_sorted-IsSorted n ms h.1)
]

pub sort-IsSorted : (ns : List ℕ) → IsSorted (sort ns)
unfolding sort IsSorted
sort-IsSorted [] = tt
sort-IsSorted (n ∷ ns) = insert_sorted-IsSorted n (sort ns) (sort-IsSorted ns)

-- what holds of every element holds of one that is in the list
pub All-has : (Q : ℕ → Type 0) (ns : List ℕ) (x : ℕ) → All Q ns → has ns x ≡ true → Q x
unfolding has
All-has Q [] x h k = absurd (cc)
All-has Q (n ∷ ns) x h k = elim (or-cases (x == n) (has ns x) k) [
  | inl e ↦ rw ((==_iff x n).0 e) h.0
  | inr m ↦ All-has Q ns x h.1 m
]

All-get_elem? : (Q : ℕ → Type 0) (ns : List ℕ) (i x : ℕ) → All Q ns → get_elem? ns i ≡ some x → Q x
All-get_elem? Q [] i x h k = absurd (cc)
All-get_elem? Q (n ∷ ns) zero x h k = let e : x ≡ n = cc in rw e h.0
All-get_elem? Q (n ∷ ns) (suc i) x h k = All-get_elem? Q ns i x h.1 k

-- In a sorted list, an element at a later index is no smaller.
pub get_elem?-sorted :
    (ns : List ℕ) (i j x y : ℕ)
    → IsSorted ns
    → i ≤ j
    → get_elem? ns i ≡ some x
    → get_elem? ns j ≡ some y
    → x ≤ y
unfolding IsSorted
get_elem?-sorted [] i j x y s l a b = absurd (cc)
get_elem?-sorted (n ∷ ns) zero zero x y s l a b = let e : x ≡ y = cc in omega (arith, e)
get_elem?-sorted (n ∷ ns) zero (suc j) x y s l a b =
    let e : n ≡ x = cc in
    let k : n ≤ y = All-get_elem? (λ m. n ≤ m) ns j y s.0 b in omega (arith, e, k)
get_elem?-sorted (n ∷ ns) (suc i) zero x y s l a b = absurd (omega arith)
get_elem?-sorted (n ∷ ns) (suc i) (suc j) x y s l a b =
    get_elem?-sorted ns i j x y s.1 (omega arith) a b

-- the number of values that pass the test
abbrev pub how_many : (ℕ → Bool) → List ℕ → ℕ
how_many test [] = 0
how_many test (n ∷ ns) = let rest = how_many test ns in if test n then rest + 1 else rest

how_many-insert_sorted :
    (test : ℕ → Bool) (n : ℕ) (ms : List ℕ)
    → how_many test (insert_sorted n ms) ≡ how_many test (n ∷ ms)
unfolding insert_sorted
how_many-insert_sorted test n [] = refl
how_many-insert_sorted test n (m ∷ ms) = elim (Bool-cases (leb n m)) [
  | inl below ↦ rw below refl
  | inr above ↦ rw above (ground (arith, how_many-insert_sorted test n ms))
]

pub how_many-sort : (test : ℕ → Bool) (ns : List ℕ) → how_many test (sort ns) ≡ how_many test ns
unfolding sort
how_many-sort test [] = refl
how_many-sort test (n ∷ ns) =
    how_many-insert_sorted test n (sort ns)
    ∙ ap (λ rest. if test n then rest + 1 else rest) (how_many-sort test ns)

-- In a sorted list, an element has as many that are no larger as its place says.
pub at_most-sorted :
    (ns : List ℕ) (i x : ℕ)
    → IsSorted ns
    → get_elem? ns i ≡ some x
    → i + 1 ≤ how_many (λ y. leb y x) ns
unfolding IsSorted
at_most-sorted [] i x s e = absurd (cc)
at_most-sorted (n ∷ ns) zero x s e = let k : n ≡ x = cc in ground arith
at_most-sorted (n ∷ ns) (suc i) x s e =
    let k : n ≤ x = All-get_elem? (λ m. n ≤ m) ns i x s.0 e in
    ground (arith, at_most-sorted ns i x s.1 e, k)

-- all of them are no smaller
how_many-All : (n : ℕ) (ns : List ℕ) → All (λ m. n ≤ m) ns → how_many (λ y. leb n y) ns ≡ length ns
how_many-All n [] h = refl
how_many-All n (m ∷ ms) h = ground (arith, how_many-All n ms h.1, h.0)

-- and as many that are no smaller as stand from there on
pub at_least-sorted :
    (ns : List ℕ) (i x : ℕ)
    → IsSorted ns
    → get_elem? ns i ≡ some x
    → length ns ≤ i + how_many (λ y. leb x y) ns
unfolding IsSorted
at_least-sorted [] i x s e = absurd (cc)
at_least-sorted (n ∷ ns) zero x s e =
    let k : n ≡ x = cc in
    let from_x : how_many (λ y. leb x y) ns ≡ length ns =
      sym (ap (λ z. how_many (λ y. leb z y) ns) k) ∙ how_many-All n ns s.0 in
    ground (arith, k, from_x)
at_least-sorted (n ∷ ns) (suc i) x s e = ground (arith, at_least-sorted ns i x s.1 e)
