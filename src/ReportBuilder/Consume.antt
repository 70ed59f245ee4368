-- ===== src/ReportBuilder/Consume.antt =====
-- What `consume_ir` does with all the masks of a builder.
use policyai.Prelude.{ℕ, Text, ◌≡◌, ◌≢◌, refl, ap, Option, none, some, List, [], ◌∷◌, ◌++◌, All}
use policyai.Json.{Platform, Value, object, Map, end, get, value_get}
use policyai.Masks.Apply.{
  bool_apply_to, number_apply_to, string_apply_to, string_array_apply_to, string_enum_apply_to,
}
use policyai.Masks.Apply.Matches.{
  Applied, Other, bool_matches, number_matches, string_matches, string_array_matches,
  string_enum_matches, Applied-bind, Applied-weaken, unchanged,
}
use policyai.Masks.Apply.Matches.Scalars.{
  apply_bool-Applied, apply_number-Applied, apply_string-Applied, apply_string_enum-Applied,
}
use policyai.Masks.Apply.Matches.Arrays.{apply_string_array-Applied}
use policyai.Report
use policyai.Report.{Report, ◌>>=◌, or_empty}
use policyai.Report.Values.Invariant.{given, Ends, Ends-imp, IsWellFormed, reported}
use policyai.ReportBuilder.{ReportBuilder, apply_all, consume_ir}

-- the rules that the masks of one kind note, in the order of the masks
abbrev pub matched_by {ℓ} : {M : Type ℓ} → (M → List ℕ) → List M → List ℕ
matched_by f [] = []
matched_by f (m ∷ ms) = f m ++ matched_by f ms

-- the field's name differs from that of every mask
abbrev pub Unnamed {ℓ} : {M : Type ℓ} → (M → Text) → List M → Text → Type 0
Unnamed name ms k = All (λ m. k ≢ name m) ms

module _ {P : Platform} where
  -- A loop over masks, each of which keeps to its own field, notes what its masks note.
  apply_all-Applied {ℓ} :
      {M : Type ℓ} (f : M → Value P → Report P → Option (Report P)) (ir : Value P)
      (matches : M → List ℕ) (name : M → Text)
      (step : (m : M) (r : Report P)
        → IsWellFormed r
        → Ends (f m ir r) (Applied (matches m) (Other (name m)) r))
      (K : Text → Type 0) (ms : List M) (apart : (k : Text) → K k → Unnamed name ms k)
      (r : Report P)
      → IsWellFormed r
      → Ends (apply_all f ms ir r) (Applied (matched_by matches ms) K r)
  unfolding apply_all
  apply_all-Applied f ir matches name step K [] apart r h = unchanged K r h
  apply_all-Applied f ir matches name step K (m ∷ ms) apart r h =
      Applied-bind (matches m) (matched_by matches ms) K r (f m ir r) (λ r'. apply_all f ms ir r')
        (Ends-imp (f m ir r) (λ s a. Applied-weaken (λ k out. (apart k out).0) a) (step m r h))
        (λ s w. apply_all-Applied f ir matches name step K ms (λ k out. (apart k out).1) s w)

  -- The rules that an answer matches: those of the masks that find a value of their kind.
  abbrev pub matched_rules : ReportBuilder P → Value P → List ℕ
  matched_rules b ir =
      matched_by (λ m. bool_matches (value_get ir m.mask) m) b.bool_masks
      ++ (matched_by (λ m. number_matches (value_get ir m.mask) m) b.number_masks
          ++ (matched_by (λ m. string_matches (value_get ir m.mask) m) b.string_masks
              ++ (matched_by (λ m. string_array_matches (value_get ir m.mask) m)
                    b.string_array_masks
                  ++ matched_by (λ m. string_enum_matches (value_get ir m.mask) m)
                      b.string_enum_masks)))

  -- no mask of the builder is for the field
  abbrev pub Unmasked : ReportBuilder P → Text → Type 0
  Unmasked b k =
      Unnamed (λ m. m.name) b.bool_masks k
      × Unnamed (λ m. m.name) b.number_masks k
      × Unnamed (λ m. m.name) b.string_masks k
      × Unnamed (λ m. m.name) b.string_array_masks k
      × Unnamed (λ m. m.name) b.string_enum_masks k

  -- the report that the loops start from
  abbrev fresh : ReportBuilder P → Value P → Report P
  fresh b ir =
      let empty =
        Report.new b.messages b.bool_masks b.number_masks b.string_masks b.string_array_masks
          b.string_enum_masks b.masks_by_index in
      record empty { ir = some ir; default = some b.default_return }

  consumed :
      (b : ReportBuilder P) (ir : Value P) (d : Map P)
      → b.default_return ≡ object d
      → Ends (consume_ir b ir) (Applied (matched_rules b ir) (Unmasked b) (fresh b ir))
  unfolding consume_ir
  consumed b ir d e =
      Applied-bind _ _ (Unmasked b) (fresh b ir) _ _
        (apply_all-Applied bool_apply_to ir _ (λ m. m.name)
          (λ m r h. apply_bool-Applied (value_get ir m.mask) m r h) (Unmasked b) b.bool_masks
          (λ k u. u.0) _
          (record { fields = end; unique = tt; value_is = refl; defaults = d; default_is = e }))
        (λ r1 h1.
          Applied-bind _ _ (Unmasked b) r1 _ _
            (apply_all-Applied number_apply_to ir _ (λ m. m.name)
              (λ m r h. apply_number-Applied (value_get ir m.mask) m r h) (Unmasked b)
              b.number_masks (λ k u. u.1) r1 h1)
            (λ r2 h2.
              Applied-bind _ _ (Unmasked b) r2 _ _
                (apply_all-Applied string_apply_to ir _ (λ m. m.name)
                  (λ m r h. apply_string-Applied (value_get ir m.mask) m r h) (Unmasked b)
                  b.string_masks (λ k u. u.2) r2 h2)
                (λ r3 h3.
                  Applied-bind _ _ (Unmasked b) r3 _ _
                    (apply_all-Applied string_array_apply_to ir _ (λ m. m.name)
                      (λ m r h. apply_string_array-Applied (value_get ir m.mask) m r h) (Unmasked b)
                      b.string_array_masks (λ k u. u.3) r3 h3)
                    (λ r4 h4.
                      apply_all-Applied string_enum_apply_to ir _ (λ m. m.name)
                        (λ m r h. apply_string_enum-Applied (value_get ir m.mask) m r h)
                        (Unmasked b) b.string_enum_masks (λ k u. u.4) r4 h4))))

  -- What `consume_ir` promises of the report.
  pub record Consumed (b : ReportBuilder P) (ir : Value P) (r : Report P) : Type 0 where
    pub wf : IsWellFormed r
    pub rules : r.rules_matched ≡ matched_rules b ir
    pub masks : r.masks_by_index ≡ b.masks_by_index
    pub same_given : given r ≡ (
      b.messages,
      b.bool_masks,
      b.number_masks,
      b.string_masks,
      b.string_array_masks,
      b.string_enum_masks,
      b.masks_by_index,
      some ir,
    )
    pub unmasked : (k : Text) → Unmasked b k → reported r k ≡ none

  -- If the builder's defaults are an object, `consume_ir` never panics, whatever the answer: its report
  -- is well formed, has the builder's messages, masks and table of masks and the answer, lists exactly the
  -- rules of the masks that find a value of their kind, in order, and reports nothing for a field that no
  -- mask is for.
  pub consume_ir-Consumed :
      (b : ReportBuilder P) (ir : Value P) (d : Map P)
      → b.default_return ≡ object d
      → Ends (consume_ir b ir) (Consumed b ir)
  consume_ir-Consumed b ir d e =
      Ends-imp {Q = Applied (matched_rules b ir) (Unmasked b) (fresh b ir)} (consume_ir b ir)
        (λ r a. record {
          wf = a.wf;
          rules = a.rules;
          masks = ap (λ t. t.6) a.same_given;
          same_given = a.same_given;
          unmasked = λ k u. unfold value_get get in a.others k u;
        })
        (consumed b ir d e)
