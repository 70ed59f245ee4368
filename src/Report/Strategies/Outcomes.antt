-- ===== src/Report/Strategies/Outcomes.antt =====
-- What each strategy comes to for a field that several policies set.
use policyai.Prelude.{
  ◌⊎◌, none, some, ℕ, ◌≤◌, ◌<◌, Text, text_eq, text_eq_iff, len, ltb, ◌≡◌, ◌≢◌, refl, ap, ◌∙◌, Bool,
  true, false, ◌||◌, List, [], ◌∷◌, append-nil, All, arith, inl, inr, Bool-cases,
}
use mathlib.Core.Path.{subst}
use policyai.Json.{Platform, Value, bool, string}
use policyai.Json.Equality.{bool_eq}
use policyai.Field.{OnConflict}
use policyai.Errors.{Conflict, string_conflict}
use policyai.Report.{Report}
use policyai.Report.Values.{report_bool, report_string, report_string_enum}
use policyai.Report.Values.Invariant.{Ends, Ends-imp, IsWellFormed, reported}
use policyai.Report.Strategies.{
  settle, settle_all, clash_all, Settled, values, report_in_turn, report_in_turn-Settled,
}
use policyai.Report.Strategies.Instances.{bool_strategy, string_strategy, enum_strategy}
use policyai.Report.Strategies.Instances.Bools.{report_bool-Implements}
use policyai.Report.Strategies.Instances.Strings.{report_string-Implements}
use policyai.Report.Strategies.Instances.Enums.{report_string_enum-Implements}

abbrev pub any : List Bool → Bool
any [] = false
any (b ∷ bs) = b || any bs

module _ (P : Platform) where
  settle_all-sticky :
      (a : Bool) (vs : List Bool)
      → settle_all (bool_strategy P) OnConflict.largest_value a vs ≡ (a || any vs)
  unfolding bool_eq
  settle_all-sticky true [] = refl
  settle_all-sticky false [] = refl
  settle_all-sticky true (true ∷ vs) = settle_all-sticky true vs
  settle_all-sticky true (false ∷ vs) = settle_all-sticky true vs
  settle_all-sticky false (true ∷ vs) = settle_all-sticky true vs
  settle_all-sticky false (false ∷ vs) = settle_all-sticky false vs

  clash_all-sticky :
      (field : Text) (a : Bool) (vs : List Bool)
      → clash_all (bool_strategy P) OnConflict.largest_value field a vs ≡ []
  unfolding bool_eq
  clash_all-sticky field true [] = refl
  clash_all-sticky field false [] = refl
  clash_all-sticky field true (true ∷ vs) = clash_all-sticky field true vs
  clash_all-sticky field true (false ∷ vs) = clash_all-sticky field true vs
  clash_all-sticky field false (true ∷ vs) = clash_all-sticky field true vs
  clash_all-sticky field false (false ∷ vs) = clash_all-sticky field false vs

module _ {P : Platform} where
  -- Under `LargestValue`, several policies report booleans for a field that has no value yet in a
  -- well-formed report: whatever their order, the field ends as true exactly if one of them says so,
  -- and no conflict and no error is added.
  pub report_bool_sticky :
      (field : Text) (i : ℕ) (v : Bool) (ivs : List (ℕ × Bool)) (r : Report P)
      → IsWellFormed r
      → reported r field ≡ none
      → Ends
          (report_in_turn report_bool field OnConflict.largest_value ((i, v) ∷ ivs) r)
          (Settled field (bool (any (v ∷ values ivs))) [] r)
  report_bool_sticky field i v ivs r h e =
      rw (← settle_all-sticky P v (values ivs), ← clash_all-sticky P field v (values ivs))
        (report_in_turn-Settled (bool_strategy P) report_bool report_bool-Implements field
          OnConflict.largest_value i v ivs r h e)

-- the longest of the texts, the first of those if there are several
abbrev pub Longest : Text → List Text → Type 0
Longest s ts = All (λ t. len t ≤ len s) ts

-- one of the texts
abbrev pub Among : Text → List Text → Type 0
Among w [] = ⊥
Among w (t ∷ ts) = (w ≡ t) ⊎ Among w ts

module _ (P : Platform) where
  settle-Longest :
      (a v : Text)
      → (len a ≤ len (settle (string_strategy P) OnConflict.largest_value a v))
        × (len v ≤ len (settle (string_strategy P) OnConflict.largest_value a v))
  settle-Longest a v = elim (Bool-cases (text_eq a v)) [
    | inl e ↦ rw e (omega arith, rw ((text_eq_iff a v).0 e) (omega arith))
    | inr e ↦ rw e (ground arith, ground arith)
  ]

  settle_all-Longest :
      (a : Text) (vs : List Text)
      → Longest (settle_all (string_strategy P) OnConflict.largest_value a vs) (a ∷ vs)
  settle_all-Longest a [] = (omega arith, tt)
  settle_all-Longest a (v ∷ vs) =
      let kept = settle (string_strategy P) OnConflict.largest_value a v in
      let ih = settle_all-Longest kept vs in
      let one = settle-Longest a v in
      (omega (arith, ih.0, one.0), (omega (arith, ih.0, one.1), ih.1))

  settle_one :
      (a v : Text)
      → (settle (string_strategy P) OnConflict.largest_value a v ≡ a)
        ⊎ (settle (string_strategy P) OnConflict.largest_value a v ≡ v)
  settle_one a v = elim (Bool-cases (text_eq a v)) [
    | inl e ↦ rw e (inl refl)
    | inr e ↦ elim (Bool-cases (ltb (len a) (len v))) [
      | inl more ↦ rw (e, more) (inr refl)
      | inr less ↦ rw (e, less) (inl refl)
    ]
  ]

  settle_all-Among :
      (a : Text) (vs : List Text)
      → Among (settle_all (string_strategy P) OnConflict.largest_value a vs) (a ∷ vs)
  settle_all-Among a [] = inl refl
  settle_all-Among a (v ∷ vs) =
      elim (settle_all-Among (settle (string_strategy P) OnConflict.largest_value a v) vs) [
        | inl e ↦ elim (settle_one a v) [ inl p ↦ inl (e ∙ p) | inr p ↦ inr (inl (e ∙ p)) ]
        | inr there ↦ inr (inr there)
      ]

  clash_all-longest :
      (field a : Text) (vs : List Text)
      → clash_all (string_strategy P) OnConflict.largest_value field a vs ≡ []
  clash_all-longest field a [] = refl
  clash_all-longest field a (v ∷ vs) = elim (Bool-cases (text_eq a v)) [
    | inl e ↦ rw e (clash_all-longest field a vs)
    | inr e ↦ elim (Bool-cases (ltb (len a) (len v))) [
      | inl more ↦ rw (e, more) (clash_all-longest field v vs)
      | inr less ↦ rw (e, less) (clash_all-longest field a vs)
    ]
  ]

text_eq_lengths : (s t : Text) → len s ≢ len t → text_eq s t ≡ false
text_eq_lengths s t n = elim (Bool-cases (text_eq s t)) [
  | inl e ↦ absurd (n (ap len ((text_eq_iff s t).0 e)))
  | inr e ↦ e
]

module _ (P : Platform) where
  long_first :
      (long short : Text)
      → len short < len long
      → (settle_all (enum_strategy P) OnConflict.largest_value long (short ∷ []) ≡ long)
        × ((field : Text)
            → clash_all (enum_strategy P) OnConflict.largest_value field long (short ∷ [])
              ≡ string_conflict field long short ∷ [])
  long_first long short lt =
      let other : text_eq long short ≡ false =
        text_eq_lengths long short (λ e. omega (arith, e, lt)) in
      let less : ltb (len long) (len short) ≡ false = ground (arith, lt) in
      rw (other, less) (refl, λ field. refl)

  short_first :
      (long short : Text)
      → len short < len long
      → (settle_all (enum_strategy P) OnConflict.largest_value short (long ∷ []) ≡ long)
        × ((field : Text)
            → clash_all (enum_strategy P) OnConflict.largest_value field short (long ∷ []) ≡ [])
  short_first long short lt =
      let other : text_eq short long ≡ false =
        text_eq_lengths short long (λ e. omega (arith, e, lt)) in
      let more : ltb (len short) (len long) ≡ true = ground (arith, lt) in
      rw (other, more) (refl, λ field. refl)

module _ {P : Platform} where
  Settled-eq :
      {field : Text} {w w' : Value P} {l l' : List (Conflict P)} {r r' : Report P}
      → Settled field w l r r'
      → w ≡ w'
      → l ≡ l'
      → Settled field w' l' r r'
  Settled-eq {field} {w} {w'} {l} {l'} {r} {r'} t ew el =
      subst (λ v. Settled field v l' r r') ew (subst (λ m. Settled field w m r r') el t)

  -- Under `LargestValue`, several policies report strings for a field that has no value yet in a
  -- well-formed report: the field ends with one of the reported strings, which is at least as long, in
  -- bytes, as each of them, and no conflict and no error is added.
  pub report_string-Longest :
      (field : Text) (i : ℕ) (v : Text) (ivs : List (ℕ × Text)) (r : Report P)
      → IsWellFormed r
      → reported r field ≡ none
      → Ends (report_in_turn report_string field OnConflict.largest_value ((i, v) ∷ ivs) r) (λ r'.
        (w : Text) × (reported r' field ≡ some (string w))
        × Among w (v ∷ values ivs)
        × Longest w (v ∷ values ivs)
        × (r'.conflicts ≡ r.conflicts)
        × (r'.errors ≡ r.errors))
  report_string-Longest field i v ivs r h e =
      let w = settle_all (string_strategy P) OnConflict.largest_value v (values ivs) in
      Ends-imp {Q = Settled field (string w) [] r} _
        (λ r' t. (
          w,
          t.value,
          settle_all-Among P v (values ivs),
          settle_all-Longest P v (values ivs),
          t.conflicts ∙ append-nil r.conflicts,
          t.errors,
        ))
        (rw (clash_all-longest P field v (values ivs)) at (
          report_in_turn-Settled (string_strategy P) report_string report_string-Implements field
            OnConflict.largest_value i v ivs r h e))

  -- Under `LargestValue`, two policies report values of different lengths for an enumeration field
  -- that has no value yet in a well-formed report: the longer one wins, whichever comes first, and
  -- the order in which the type lists its values has no part in it. One conflict is added if the
  -- longer one comes first, and none if the shorter one does.
  pub report_string_enum_by_length :
      (field long short : Text) (i j : ℕ) (r : Report P)
      → len short < len long
      → IsWellFormed r
      → reported r field ≡ none
      → Ends
          (report_in_turn report_string_enum field OnConflict.largest_value
            ((i, long) ∷ (j, short) ∷ [])
            r)
          (Settled field (string long) (string_conflict field long short ∷ []) r)
        × Ends
            (report_in_turn report_string_enum field OnConflict.largest_value
              ((j, short) ∷ (i, long) ∷ [])
              r)
            (Settled field (string long) [] r)
  report_string_enum_by_length field long short i j r lt h e = (
    Ends-imp
        {Q = Settled field
          (string (settle_all (enum_strategy P) OnConflict.largest_value long (short ∷ [])))
          (clash_all (enum_strategy P) OnConflict.largest_value field long (short ∷ [])) r}
        _
        (λ r' t.
          Settled-eq t (ap string (long_first P long short lt).0)
            ((long_first P long short lt).1 field))
        (report_in_turn-Settled (enum_strategy P) report_string_enum report_string_enum-Implements
          field OnConflict.largest_value i long ((j, short) ∷ []) r h e),
    Ends-imp
        {Q = Settled field
          (string (settle_all (enum_strategy P) OnConflict.largest_value short (long ∷ [])))
          (clash_all (enum_strategy P) OnConflict.largest_value field short (long ∷ [])) r}
        _
        (λ r' t.
          Settled-eq t (ap string (short_first P long short lt).0)
            ((short_first P long short lt).1 field))
        (report_in_turn-Settled (enum_strategy P) report_string_enum report_string_enum-Implements
          field OnConflict.largest_value j short ((i, long) ∷ []) r h e),
  )
