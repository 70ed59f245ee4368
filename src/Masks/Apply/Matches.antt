-- ===== src/Masks/Apply/Matches.antt =====
-- Which rule each mask notes, for what the answer holds at the mask; and that no mask panics.
pub mod Scalars
pub mod Arrays
use policyai.Prelude.{
  ℕ, Text, text_eq, ◌≡◌, ◌≢◌, refl, sym, ap, ◌∙◌, Bool, true, false, Option, none, some, List, [],
  ◌∷◌, ◌++◌, append-nil, append_assoc, inl, inr, Bool-cases,
}
use policyai.Json.{Platform, Value, bool, number, string, value_get}
use policyai.Numbers.{number_is_equal}
use policyai.Masks.{BoolMask, NumberMask, StringMask, StringArrayMask, StringEnumMask}
use policyai.Report.{
  Report, ◌>>=◌, or_empty, report_default, report_bool_default, report_number_default,
  report_string_default,
}
use policyai.Report.Defaults.{Defaults, report_default-Defaults}
use policyai.Report.Values.Invariant.{Ends, Ends-imp, IsWellFormed, given, reported, Reports}
use policyai.Report.Values.Scalars.{
  report_bool-Reports, report_number-Reports, report_string-Reports, report_string_enum-Reports,
}
use policyai.Report.Values.Totality.{string_array-Reports, empty_array-Reports}
use policyai.Masks.Apply.{
  apply_bool, bool_default, apply_number, number_found, number_missing, number_default,
  apply_string, string_found, string_default, apply_string_array, strings_found, extract_strings,
  report_each, apply_string_enum, enum_set,
}

-- one note for each string of an array
abbrev pub note_each : ℕ → List Text → List ℕ
note_each i [] = []
note_each i (s ∷ ss) = i ∷ note_each i ss

-- An empty array matches once, and any other once for each string.
abbrev pub strings_matches : Option (List Text) → StringArrayMask → List ℕ
strings_matches none m = []
strings_matches (some []) m = m.policy_index ∷ []
strings_matches (some (s ∷ ss)) m = note_each m.policy_index (s ∷ ss)

abbrev pub Other : Text → Text → Type 0
Other name k = k ≢ name

module _ {P : Platform} where
  -- A boolean at the mask, whichever it is, matches the rule.
  abbrev pub bool_matches : Option (Value P) → BoolMask → List ℕ
  bool_matches (some (bool _)) m = m.policy_index ∷ []
  bool_matches _ m = []

  -- A number matches, also one that is not the expected number.
  abbrev pub number_matches : Option (Value P) → NumberMask P → List ℕ
  number_matches (some (number _)) m = m.policy_index ∷ []
  number_matches _ m = []

  abbrev pub string_matches : Option (Value P) → StringMask → List ℕ
  string_matches (some (string _)) m = m.policy_index ∷ []
  string_matches _ m = []

  -- Only a flag that is set matches.
  abbrev pub string_enum_matches : Option (Value P) → StringEnumMask → List ℕ
  string_enum_matches (some (bool true)) m = m.policy_index ∷ []
  string_enum_matches _ m = []

  abbrev pub string_array_matches : Option (Value P) → StringArrayMask → List ℕ
  string_array_matches none m = []
  string_array_matches (some v) m = strings_matches (extract_strings 128 v) m

  -- Masks have been applied: the rules in the list are noted, and the fields of `K` are untouched.
  pub record Applied (matched : List ℕ) (K : Text → Type 0) (r r' : Report P) : Type 0 where
    pub wf : IsWellFormed r'
    pub others : (k : Text) → K k → reported r' k ≡ reported r k
    pub rules : r'.rules_matched ≡ r.rules_matched ++ matched
    pub same_given : given r' ≡ given r

  Applied-Reports :
      (i : ℕ) (name : Text) (r r' : Report P)
      → Reports i name r r'
      → Applied (i ∷ []) (Other name) r r'
  Applied-Reports i name r r' h = record {
    wf = h.wf;
    others = h.others;
    rules = h.rules;
    same_given = h.same_given;
  }

  Applied-Defaults : (name : Text) (r r' : Report P) → Defaults r r' → Applied [] (Other name) r r'
  Applied-Defaults name r r' h = record {
    wf = h.wf;
    others = λ k _. ap (λ o. value_get (or_empty o) k) h.value;
    rules = h.rules ∙ sym (append-nil r.rules_matched);
    same_given = h.same_given;
  }

  Applied-same :
      (matched : List ℕ) (K : Text → Type 0) {r r' : Report P}
      → IsWellFormed r
      → r'.value ≡ r.value
      → r'.default ≡ r.default
      → r'.rules_matched ≡ r.rules_matched ++ matched
      → given r' ≡ given r
      → Applied matched K r r'
  Applied-same matched K h v d s m = record {
    wf = record {
      fields = h.fields;
      unique = h.unique;
      value_is = ap or_empty v ∙ h.value_is;
      defaults = h.defaults;
      default_is = ap or_empty d ∙ h.default_is;
    };
    others = λ k _. ap (λ o. value_get (or_empty o) k) v;
    rules = s;
    same_given = m;
  }

  noted_as :
      (i : ℕ) (name : Text) (r : Report P) (o : Option (Report P))
      → Ends o (Reports i name r)
      → Ends o (Applied (i ∷ []) (Other name) r)
  noted_as i name r o = Ends-imp o (Applied-Reports i name r)

  pub unchanged : (K : Text → Type 0) (r : Report P) → IsWellFormed r → Applied [] K r r
  unchanged K r h = Applied-same [] K h refl refl (sym (append-nil _)) refl

  defaulted :
      (name : Text) (v : Value P) (r : Report P)
      → IsWellFormed r
      → Ends (report_default name v r) (Applied [] (Other name) r)
  defaulted name v r h = Ends-imp _ (Applied-Defaults name r) (report_default-Defaults name v r h)

  pub Applied-weaken :
      {l : List ℕ} {K K' : Text → Type 0} {r r' : Report P}
      → ((k : Text) → K' k → K k)
      → Applied l K r r'
      → Applied l K' r r'
  Applied-weaken f a = record {
    wf = a.wf;
    others = λ k out. a.others k (f k out);
    rules = a.rules;
    same_given = a.same_given;
  }

  -- one step after another
  pub Applied-bind :
      (l l' : List ℕ) (K : Text → Type 0) (r : Report P) (o : Option (Report P))
      (f : Report P → Option (Report P))
      → Ends o (Applied l K r)
      → ((s : Report P) → IsWellFormed s → Ends (f s) (Applied l' K s))
      → Ends (o >>= f) (Applied (l ++ l') K r)
  Applied-bind l l' K r none f h k = h
  Applied-bind l l' K r (some s) f a k =
      Ends-imp {Q = Applied l' K s} {Q' = Applied (l ++ l') K r} (f s)
        (λ t b. record {
          wf = b.wf;
          others = λ key out. b.others key out ∙ a.others key out;
          rules = b.rules ∙ ap (λ x. x ++ l') a.rules ∙ append_assoc r.rules_matched l l';
          same_given = b.same_given ∙ a.same_given;
        })
        (k s a.wf)
