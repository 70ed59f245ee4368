-- ===== src/Evaluate/Counts.antt =====
-- The counts of `calculate_field_metrics`.
use policyai.Prelude.{
  ℕ, ◌+◌, ◌≡◌, refl, ◌∙◌, not, ◌&&◌, Bool, true, false, Option, none, some, arith, inl, inr,
  Bool-cases, Text, text_eq, text, if◌then◌else◌,
}
use policyai.Json.{Platform, Value, Map, end, entry, get}
use policyai.Evaluate.{
  Arithmetic, FieldCounts, has_key, as_object, values_match, judged, judge_expected, count_extra,
  extra_of, calculate_field_metrics,
}

module _ {P : Platform} where
  -- the number of entries
  abbrev pub size : Map P → ℕ
  size end = 0
  size (entry k v m) = size m + 1

  -- the number of entries that pass the test
  abbrev pub entry_count : (Text → Value P → Bool) → Map P → ℕ
  entry_count test end = 0
  entry_count test (entry k v m) =
      let rest = entry_count test m in if test k v then rest + 1 else rest

  -- what the output has for a field, nothing if it is no object
  abbrev pub found_in : Option (Map P) → Text → Option (Value P)
  found_in none k = none
  found_in (some obj) k = get obj k

  abbrev pub holds_of : Option (Value P) → (Value P → Bool) → Bool
  holds_of none test = false
  holds_of (some w) test = test w

  abbrev pub is_missing : Option (Value P) → Bool
  is_missing none = true
  is_missing (some w) = false

  -- a field of the output that is not expected
  abbrev pub is_extra : Map P → Text → Value P → Bool
  is_extra expected k w = not (text_eq k (text "__rule_numbers__")) && is_missing (get expected k)

  abbrev pub extra_in : Map P → Option (Map P) → ℕ
  extra_in expected none = 0
  extra_in expected (some obj) = entry_count (is_extra expected) obj

-- the expected fields that were counted
abbrev pub counted : FieldCounts → ℕ
counted s = s.matched + s.wrong_value + s.missing

-- 1 for true
abbrev one_if : Bool → ℕ
one_if b = if b then 1 else 0

module _ {P : Platform} (A : Arithmetic P) where
  -- what the output has for an expected field matches, or does not match
  abbrev pub is_matched : Option (Map P) → Text → Value P → Bool
  is_matched obj k v = holds_of (found_in obj k) (λ w. values_match A v w)

  abbrev pub is_wrong : Option (Map P) → Text → Value P → Bool
  is_wrong obj k v = holds_of (found_in obj k) (λ w. not (values_match A v w))

  -- The counts of the expected fields against an output, which may be no object.
  pub record Counts (expected : Map P) (obj : Option (Map P)) (t : FieldCounts) : Type 0 where
    pub matched : t.matched ≡ entry_count (is_matched obj) expected
    pub wrong : t.wrong_value ≡ entry_count (is_wrong obj) expected
    pub missing : t.missing ≡ entry_count (λ k v. is_missing (found_in obj k)) expected
    pub extra : t.extra ≡ extra_in expected obj
    pub all : counted t ≡ size expected

  -- how one expected field changes the counts
  abbrev Judged : Option (Value P) → Value P → FieldCounts → FieldCounts → Type 0
  Judged o v s t =
      (t.matched ≡ s.matched + one_if (holds_of o (λ w. values_match A v w)))
      × (t.wrong_value ≡ s.wrong_value + one_if (holds_of o (λ w. not (values_match A v w))))
      × (t.missing ≡ s.missing + one_if (is_missing o))
      × (t.extra ≡ s.extra)
      × (counted t ≡ counted s + 1)

  judged-Judged :
      (o : Option (Value P)) (v : Value P) (s : FieldCounts) → Judged o v s (judged A o v s)
  unfolding judged
  judged-Judged none v s = (omega arith, omega arith, omega arith, refl, omega arith)
  judged-Judged (some w) v s = elim (Bool-cases (values_match A v w)) [
    | inl good ↦ rw good (omega arith, omega arith, omega arith, refl, omega arith)
    | inr bad ↦ rw bad (omega arith, omega arith, omega arith, refl, omega arith)
  ]

  -- how the expected fields change the counts
  abbrev JudgedAll : Option (Map P) → Map P → FieldCounts → FieldCounts → Type 0
  JudgedAll obj m s t =
      (t.matched ≡ s.matched + entry_count (is_matched obj) m)
      × (t.wrong_value ≡ s.wrong_value + entry_count (is_wrong obj) m)
      × (t.missing ≡ s.missing + entry_count (λ k v. is_missing (found_in obj k)) m)
      × (t.extra ≡ s.extra)
      × (counted t ≡ counted s + size m)

  JudgedAll-entry :
      (obj : Option (Map P)) (k : Text) (v : Value P) (m : Map P) (s s' t : FieldCounts)
      → Judged (found_in obj k) v s s'
      → JudgedAll obj m s' t
      → JudgedAll obj (entry k v m) s t
  JudgedAll-entry obj k v m s s' t h i = (
    ground (arith, h.0, i.0),
    ground (arith, h.1, i.1),
    ground (arith, h.2, i.2),
    i.3 ∙ h.3,
    omega (arith, h.4, i.4),
  )

  judge_expected-JudgedAll :
      (obj : Option (Map P)) (m : Map P) (s : FieldCounts)
      → JudgedAll obj m s (judge_expected A obj m s)
  unfolding judge_expected judged
  judge_expected-JudgedAll none end s = (omega arith, omega arith, omega arith, refl, omega arith)
  judge_expected-JudgedAll (some obj) end s =
      (omega arith, omega arith, omega arith, refl, omega arith)
  judge_expected-JudgedAll none (entry k v m) s =
      JudgedAll-entry none k v m s _ _ (judged-Judged none v s) (judge_expected-JudgedAll none m _)
  judge_expected-JudgedAll (some obj) (entry k v m) s =
      JudgedAll-entry (some obj) k v m s _ _ (judged-Judged (get obj k) v s)
        (judge_expected-JudgedAll (some obj) m _)

  -- The other counts stay, and `n` more are extra.
  abbrev More : ℕ → FieldCounts → FieldCounts → Type 0
  More n s t =
      (t.extra ≡ s.extra + n)
      × (t.matched ≡ s.matched)
      × (t.wrong_value ≡ s.wrong_value)
      × (t.missing ≡ s.missing)

  is_missing_lem :
      (o : Option (Value P)) → not (elim o [ none ↦ false | some _ ↦ true ]) ≡ is_missing o
  is_missing_lem none = refl
  is_missing_lem (some w) = refl

  not-has_key : (m : Map P) (k : Text) → not (has_key m k) ≡ is_missing (get m k)
  unfolding has_key
  not-has_key m k = is_missing_lem (get m k)

  count_extra-More :
      (expected obj : Map P) (s : FieldCounts)
      → More (entry_count (is_extra expected) obj) s (count_extra A expected obj s)
  unfolding count_extra
  count_extra-More expected end s = (omega arith, refl, refl, refl)
  count_extra-More expected (entry k v m) s =
      rw (← not-has_key expected k)
        (elim (Bool-cases (not (text_eq k (text "__rule_numbers__")) && not (has_key expected k))) [
          | inl more ↦
              let (e, a, b, c) = count_extra-More expected m (record s { extra = s.extra + 1 }) in
              rw (count_extra, more) (omega (arith, e), a, b, c)
          | inr less ↦ rw (count_extra, less) (count_extra-More expected m s)
        ])

  extra_of-More :
      (expected : Map P) (obj : Option (Map P)) (s : FieldCounts)
      → More (extra_in expected obj) s (extra_of A expected obj s)
  unfolding extra_of
  extra_of-More expected none s = (omega arith, refl, refl, refl)
  extra_of-More expected (some obj) s = count_extra-More expected obj s

  -- Whatever the output is, the counts are exact: the matched are the expected fields for which the output
  -- has a value that matches the expected one, the wrong are those for which it has another value, the
  -- missing are those for which it has none, and each expected field is one of these; the extra are
  -- the fields of the output that are not expected, other than `__rule_numbers__`. An output that is no
  -- object has no field.
  pub calculate_field_metrics_lem :
      (expected : Map P) (actual : Value P)
      → Counts expected (as_object actual) (calculate_field_metrics A expected actual)
  unfolding calculate_field_metrics
  calculate_field_metrics_lem expected actual =
      let obj = as_object actual in
      let judged_all = judge_expected-JudgedAll obj expected _ in
      let more = extra_of-More expected obj _ in
      record {
        matched = more.1 ∙ judged_all.0 ∙ omega arith;
        wrong = more.2 ∙ judged_all.1 ∙ omega arith;
        missing = more.3 ∙ judged_all.2 ∙ omega arith;
        extra = more.0 ∙ omega (arith, judged_all.3);
        all = omega (arith, more.1, more.2, more.3, judged_all.4);
      }
