-- ===== src/Regressions/Options.antt =====
-- The options of src/bin/policyai-extract-regressions.rs: what matches without them matches with them.
use policyai.Prelude.{
  ◌≡◌, refl, Text, text_eq_iff, text_eq_refl, Bool, true, false, not, ◌&&◌, Option, none, some,
  List, [], ◌∷◌, ◌++◌, ◌==◌, ==_iff, if◌then◌else◌, append_assoc, All, All-append, Bool-cases,
  and-cases, inl, inr, arith,
}
use policyai.Json.{Platform, Value, string, array, object, Values, nil, cons, Map, end, entry, get}
use policyai.Evaluate.{Arithmetic}
use policyai.Usage.{Claudius}
use policyai.Data.Points.{EvaluationReport}
use policyai.Regressions.{
  Args, Comparison, normalize_whitespace, strings_match, count, size, use_first, keep, unused,
  values_match_recursive, zip_all, match_all, entries_match, regressed, is_regression,
}

-- no option
abbrev pub exact : Args
exact = record {
  include_baseline_failures = false;
  ignore_whitespace = false;
  ignore_array_order = false;
}

pub if-true : (b c : Bool) → (if not b then false else c) ≡ true → (b ≡ true) × (c ≡ true)
if-true true c h = (refl, h)
if-true false c h = absurd (cc)

both : (b c d : Bool) → c ≡ true → d ≡ true → elim b [ true ↦ c | false ↦ d ] ≡ true
both true c d h k = h
both false c d h k = k

pub elim_true {ℓ} :
    {A : Type ℓ} (f : A → Bool) (o : Option A)
    → elim o [ none ↦ false | some a ↦ f a ] ≡ true
    → (a : A) × (o ≡ some a) × (f a ≡ true)
elim_true f none h = absurd (cc)
elim_true f (some a) h = (a, refl, h)

some_true {ℓ} :
    {A : Type ℓ} (f : A → Bool) (o : Option A) (a : A)
    → o ≡ some a
    → f a ≡ true
    → elim o [ none ↦ false | some a ↦ f a ] ≡ true
some_true f o a e h = rw e h

-- the tests of `is_regression` on an output that is right
passed :
    (baseline include : Bool)
    → (if baseline && false
        then true
        else (if include && not baseline && false then true else false))
      ≡ false
passed true true = refl
passed true false = refl
passed false true = refl
passed false false = refl

module _ {P : Platform} where
  -- The first element that is not used is used, if it matches.
  use_first-used :
      (matches : Value P → Bool) (pre rest : List (Bool × Value P)) (w : Value P)
      → All (λ b. b.0 ≡ true) pre
      → matches w ≡ true
      → use_first matches (pre ++ (false, w) ∷ rest) ≡ some (pre ++ (true, w) ∷ rest)
  unfolding use_first keep
  use_first-used matches [] rest w h m = rw m
  use_first-used matches (b ∷ pre) rest w h m = rw (h.0, use_first-used matches pre rest w h.1 m)

module _ {P : Platform} (A : Arithmetic P) (C : Comparison P) (o : Args) where
  strings_match-exact :
      (s t : Text) → strings_match A C exact s t ≡ true → strings_match A C o s t ≡ true
  unfolding strings_match
  strings_match-exact s t h = elim (Bool-cases o.ignore_whitespace) [
    | inl e ↦ rw (e, (text_eq_iff s t).0 h) (text_eq_refl (normalize_whitespace C.is_whitespace t))
    | inr e ↦ rw (e, h)
  ]

  mutual
    unfolding values_match_recursive zip_all match_all entries_match

    match_kept :
        (a b : Value P)
        → values_match_recursive A C exact a b ≡ true
        → values_match_recursive A C o a b ≡ true
    match_kept (string s) (string t) h = strings_match-exact s t h
    match_kept (array vs) (array ws) h =
        let (n, k) = if-true (count vs == count ws) (zip_all A C exact vs ws) h in
        both o.ignore_array_order _ _
          (rw n (order_kept vs [] ws tt ((==_iff (count vs) (count ws)).0 n) k))
          (rw n (zip_kept vs ws k))
    match_kept (object m) (object n) h =
        let (e, k) = if-true (size m == size n) (entries_match A C exact m n) h in
        rw e (entries_kept m n k)
    match_kept _ _ h = h

    zip_kept : (vs ws : Values P) → zip_all A C exact vs ws ≡ true → zip_all A C o vs ws ≡ true
    zip_kept nil ws h = refl
    zip_kept (cons v vs) nil h = refl
    zip_kept (cons v vs) (cons w ws) h =
        let (a, b) = and-cases (values_match_recursive A C exact v w) (zip_all A C exact vs ws) h in
        rw (match_kept v w a, zip_kept vs ws b)

    -- Elements that match in order are used in order.
    order_kept :
        (vs : Values P) (pre : List (Bool × Value P)) (ws : Values P)
        → All (λ b. b.0 ≡ true) pre
        → count vs ≡ count ws
        → zip_all A C exact vs ws ≡ true
        → match_all A C o vs (pre ++ unused ws) ≡ true
    order_kept nil pre ws p n h = refl
    order_kept (cons v vs) pre nil p n h = absurd (omega (arith, n))
    order_kept (cons v vs) pre (cons w ws) p n h =
        let (a, b) = and-cases (values_match_recursive A C exact v w) (zip_all A C exact vs ws) h in
        let pre' = pre ++ (true, w) ∷ [] in
        some_true (λ bs. match_all A C o vs bs)
          (use_first (values_match_recursive A C o v) (pre ++ (false, w) ∷ unused ws))
          (pre' ++ unused ws)
          (rw (append_assoc pre ((true, w) ∷ []) (unused ws)) (
            use_first-used (values_match_recursive A C o v) pre (unused ws) w p (match_kept v w a)))
          (order_kept vs pre' ws (All-append (λ b. b.0 ≡ true) pre ((true, w) ∷ []) p (refl, tt))
            (omega (arith, n)) b)

    entries_kept :
        (m n : Map P) → entries_match A C exact m n ≡ true → entries_match A C o m n ≡ true
    entries_kept end n h = refl
    entries_kept (entry k v m) n h =
        let (w, e, both) =
          elim_true (λ w. values_match_recursive A C exact v w && entries_match A C exact m n)
            (get n k) h in
        let (a, b) =
          and-cases (values_match_recursive A C exact v w) (entries_match A C exact m n) both in
        some_true (λ w. values_match_recursive A C o v w && entries_match A C o m n) (get n k) w e
          (rw (match_kept v w a, entries_kept m n b))

  -- Two values that match without any option match under all options.
  pub values_match_recursive-exact :
      (a b : Value P)
      → values_match_recursive A C exact a b ≡ true
      → values_match_recursive A C o a b ≡ true
  values_match_recursive-exact = match_kept

  regressed-passes :
      (output expected : Value P) (baseline : Option (Value P))
      → values_match_recursive A C o output expected ≡ true
      → regressed A C o output (some expected) baseline ≡ false
  unfolding regressed
  regressed-passes output expected none h = refl
  regressed-passes output expected (some baseline) h =
      rw h (passed (values_match_recursive A C o baseline expected) o.include_baseline_failures)

  -- A report whose output matches what was expected without any option is not extracted, whatever the
  -- options.
  pub is_regression-exact :
      {D : Claudius P} (report : EvaluationReport D) (expected : Value P)
      → report.input.expected ≡ some expected
      → values_match_recursive A C exact report.output expected ≡ true
      → is_regression A C report o ≡ false
  unfolding is_regression
  is_regression-exact report expected e h = rw e (
      regressed-passes report.output expected report.baseline (match_kept report.output expected h))
