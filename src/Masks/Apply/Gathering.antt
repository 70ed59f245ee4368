-- ===== src/Masks/Apply/Gathering.antt =====
-- The loop of `StringArrayMask::apply_to` over the strings of an answer.
use policyai.Prelude.{
  ℕ, Text, text_eq, ◌≡◌, refl, ap, ◌∙◌, Bool, true, false, ◌||◌, Option, none, some, List, [], ◌∷◌,
  arith, if◌then◌else◌,
}
use policyai.Json.{Platform, array}
use policyai.Report.{Report, ◌>>=◌}
use policyai.Report.Values.{report_string_array}
use policyai.Report.Values.Invariant.{Ends, Ends-imp, IsWellFormed, reported, Reports}
use policyai.Report.Values.Totality.{string_array-Reports}
use policyai.Report.Values.Arrays.{
  member, Distinct, extended, Distinct-extended, member-extended, strings_of,
  report_string_array-first, report_string_array-extended,
}
use policyai.Masks.Apply.{report_each}

member_after : (a b c : Bool) → ((a || b) || c) ≡ (a || (if b then true else c))
member_after true b c = refl
member_after false true c = refl
member_after false false c = refl

module _ {P : Platform} where
  -- The field holds distinct texts: those of both lists.
  pub record Gathered (field : Text) (l ss : List Text) (r' : Report P) : Type 0 where
    pub wf : IsWellFormed r'
    pub texts : List Text
    pub value : reported r' field ≡ some (array (strings_of texts))
    pub distinct : Distinct texts
    pub members : (x : Text) → member texts x ≡ (member l x || member ss x)

  -- two properties of the same result
  Ends-both :
      (Q Q' : Report P → Type 0) (o : Option (Report P))
      → Ends o Q
      → Ends o Q'
      → Ends o (λ r. Q r × Q' r)
  Ends-both Q Q' none h k = h
  Ends-both Q Q' (some r) h k = (h, k)

  Ends-bind :
      (Q Q' : Report P → Type 0) (o : Option (Report P)) (f : Report P → Option (Report P))
      → Ends o Q
      → ((r : Report P) → Q r → Ends (f r) Q')
      → Ends (o >>= f) Q'
  Ends-bind Q Q' none f h k = h
  Ends-bind Q Q' (some r) f h k = k r h

  -- One report leaves the report well formed, whatever else it does.
  and_well_formed :
      (i : ℕ) (field s : Text) (l : List Text) (r : Report P)
      → IsWellFormed r
      → Ends
          (report_string_array i field s r)
          (λ r'. reported r' field ≡ some (array (strings_of l)))
      → Ends
          (report_string_array i field s r)
          (λ r'. IsWellFormed r' × (reported r' field ≡ some (array (strings_of l))))
  and_well_formed i field s l r h =
      Ends-both IsWellFormed (λ r'. reported r' field ≡ some (array (strings_of l))) _
        (Ends-imp {Q = Reports i field r} _ (λ r' a. a.wf) (string_array-Reports i field s r h))

  report_each-Gathered :
      (i : ℕ) (field : Text) (ss l : List Text) (r : Report P)
      → IsWellFormed r
      → reported r field ≡ some (array (strings_of l))
      → Distinct l
      → Ends (report_each i field ss r) (Gathered field l ss)
  unfolding report_each
  report_each-Gathered i field [] l r h e d = record {
    wf = h;
    texts = l;
    value = e;
    distinct = d;
    members = λ x. ground arith;
  }
  report_each-Gathered i field (s ∷ ss) l r h e d =
      Ends-bind
        (λ r'. IsWellFormed r' × (reported r' field ≡ some (array (strings_of (extended l s)))))
        (Gathered field l (s ∷ ss)) (report_string_array i field s r) (report_each i field ss)
        (and_well_formed i field s (extended l s) r h
          (report_string_array-extended i field s l r h e))
        (λ r' both.
          Ends-imp {Q = Gathered field (extended l s) ss} _
            (λ t g. record {
              wf = g.wf;
              texts = g.texts;
              value = g.value;
              distinct = g.distinct;
              members = λ x.
                  g.members x
                  ∙ ap (λ b. b || member ss x) (member-extended l s x)
                  ∙ member_after (member l x) (text_eq s x) (member ss x);
            })
            (report_each-Gathered i field ss (extended l s) r' both.0 both.1
              (Distinct-extended l s d)))

  -- The strings of an answer, one or more, are reported for an array field that has no value yet in a
  -- well-formed report. No report panics, and the field ends with an array of strings in which no
  -- string stands twice, and in which exactly the strings of the answer stand.
  pub report_each-first :
      (i : ℕ) (field s : Text) (ss : List Text) (r : Report P)
      → IsWellFormed r
      → reported r field ≡ none
      → Ends (report_each i field (s ∷ ss) r) (Gathered field (s ∷ []) ss)
  unfolding report_each
  report_each-first i field s ss r h e =
      Ends-bind (λ r'. IsWellFormed r' × (reported r' field ≡ some (array (strings_of (s ∷ [])))))
        (Gathered field (s ∷ []) ss) (report_string_array i field s r) (report_each i field ss)
        (and_well_formed i field s (s ∷ []) r h (report_string_array-first i field s r h e))
        (λ r' both. report_each-Gathered i field ss (s ∷ []) r' both.0 both.1 (refl, tt))
