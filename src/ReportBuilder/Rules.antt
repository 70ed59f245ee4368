-- ===== src/ReportBuilder/Rules.antt =====
-- Every rule that a report lists is one of the policies that were added.
use policyai.Prelude.{
  ℕ, ◌≤◌, Text, true, false, Option, none, some, List, [], ◌∷◌, All, All-append, All-imp, length,
  arith,
}
use policyai.Json.{Platform, Value, bool, number, string, value_get}
use policyai.Masks.{BoolMask, NumberMask, StringMask, StringArrayMask, StringEnumMask}
use policyai.Masks.Apply.{extract_strings}
use policyai.Masks.Apply.Matches.{
  note_each, bool_matches, number_matches, string_matches, strings_matches, string_array_matches,
  string_enum_matches,
}
use policyai.Report.Values.Invariant.{Ends, Ends-imp}
use policyai.ReportBuilder.{ReportBuilder, consume_ir}
use policyai.ReportBuilder.Consume.{matched_by, matched_rules, Consumed, consume_ir-Consumed}
use policyai.ReportBuilder.Policies.Coherence.{IsCoherent, IsRule}

module _ {P : Platform} (Q : ℕ → Type 0) where
  bool_matches-All :
      (w : Option (Value P)) (m : BoolMask) → Q m.policy_index → All Q (bool_matches w m)
  bool_matches-All none m q = tt
  bool_matches-All (some (bool _)) m q = (q, tt)
  bool_matches-All (some _) m q = tt

  number_matches-All :
      (w : Option (Value P)) (m : NumberMask P) → Q m.policy_index → All Q (number_matches w m)
  number_matches-All none m q = tt
  number_matches-All (some (number _)) m q = (q, tt)
  number_matches-All (some _) m q = tt

  string_matches-All :
      (w : Option (Value P)) (m : StringMask) → Q m.policy_index → All Q (string_matches w m)
  string_matches-All none m q = tt
  string_matches-All (some (string _)) m q = (q, tt)
  string_matches-All (some _) m q = tt

  string_enum_matches-All :
      (w : Option (Value P)) (m : StringEnumMask)
      → Q m.policy_index
      → All Q (string_enum_matches w m)
  string_enum_matches-All none m q = tt
  string_enum_matches-All (some (bool true)) m q = (q, tt)
  string_enum_matches-All (some (bool false)) m q = tt
  string_enum_matches-All (some _) m q = tt

note_each-All : (Q : ℕ → Type 0) (i : ℕ) (ss : List Text) → Q i → All Q (note_each i ss)
note_each-All Q i [] q = tt
note_each-All Q i (s ∷ ss) q = (q, note_each-All Q i ss q)

strings_matches-All :
    (Q : ℕ → Type 0) (w : Option (List Text)) (m : StringArrayMask)
    → Q m.policy_index
    → All Q (strings_matches w m)
strings_matches-All Q none m q = tt
strings_matches-All Q (some []) m q = (q, tt)
strings_matches-All Q (some (s ∷ ss)) m q = note_each-All Q m.policy_index (s ∷ ss) q

string_array_matches-All :
    {P : Platform} (Q : ℕ → Type 0) (w : Option (Value P)) (m : StringArrayMask)
    → Q m.policy_index
    → All Q (string_array_matches w m)
string_array_matches-All Q none m q = tt
string_array_matches-All Q (some v) m q = strings_matches-All Q (extract_strings 128 v) m q

matched_by-All {ℓ} :
    {M : Type ℓ} (Q : ℕ → Type 0) (f : M → List ℕ) (index : M → ℕ)
    (step : (m : M) → Q (index m) → All Q (f m)) (ms : List M)
    → All (λ m. Q (index m)) ms
    → All Q (matched_by f ms)
matched_by-All Q f index step [] h = tt
matched_by-All Q f index step (m ∷ ms) h =
    All-append Q _ _ (step m h.0) (matched_by-All Q f index step ms h.1)

module _ {P : Platform} where
  pub matched_rules-IsRule :
      (b : ReportBuilder P) (ir : Value P)
      → IsCoherent b
      → All (IsRule b.policy_index) (matched_rules b ir)
  matched_rules-IsRule b ir h =
      let Q = IsRule b.policy_index in
      All-append Q _ _
        (matched_by-All Q _ _ (λ m q. bool_matches-All Q (value_get ir m.mask) m q) b.bool_masks
          h.bools)
        (All-append Q _ _
          (matched_by-All Q _ _ (λ m q. number_matches-All Q (value_get ir m.mask) m q)
            b.number_masks h.numbers)
          (All-append Q _ _
            (matched_by-All Q _ _ (λ m q. string_matches-All Q (value_get ir m.mask) m q)
              b.string_masks h.strings)
            (All-append Q _ _
              (matched_by-All Q _ _ (λ m q. string_array_matches-All Q (value_get ir m.mask) m q)
                b.string_array_masks h.arrays)
              (matched_by-All Q _ _ (λ m q. string_enum_matches-All Q (value_get ir m.mask) m q)
                b.string_enum_masks h.enums))))

  -- From a coherent builder `consume_ir` ends without a panic, whatever the answer, and every rule number
  -- that its report lists is from 1 to the number of rows of `masks_by_index`.
  pub consume_ir-IsRule :
      (b : ReportBuilder P) (ir : Value P)
      → IsCoherent b
      → Ends
          (consume_ir b ir)
          (λ r. All (λ i. (1 ≤ i) × (i ≤ length r.masks_by_index)) r.rules_matched)
  consume_ir-IsRule b ir h =
      Ends-imp {Q = Consumed b ir} (consume_ir b ir)
        (λ r c.
          rw (c.rules, c.masks)
            (All-imp _ _ (matched_rules b ir) (λ i q. (q.0, omega (arith, h.next)))
              (matched_rules-IsRule b ir h)))
        (consume_ir-Consumed b ir h.defaults h.defaults_are)
