-- ===== src/Report/Values/Invariant.antt =====
-- Every report of a value ends without a panic in a well-formed report, and touches its field only.
use policyai.Prelude.{
  ℕ, Text, text_eq, text_eq_iff, ◌≡◌, ◌≢◌, refl, ◌∙◌, ap, Option, none, some, [], ◌∷◌, ◌++◌, arith,
  List, if◌then◌else◌,
}
use policyai.Json.{Platform, Value, object, Map, insert, value_get, index_set}
use policyai.Json.Maps.{Unique, Unique-insert, get-insert}
use policyai.Masks.{BoolMask, NumberMask, StringMask, StringArrayMask, StringEnumMask}
use policyai.Report.{Report, or_empty, report_policy_index}
use policyai.Report.Values.{store}

-- The computation does not panic, and its result has the property.
abbrev pub Ends {ℓ} : {A : Type ℓ} → Option A → (A → Type 0) → Type 0
Ends none Q = ⊥
Ends (some a) Q = Q a

module _ {P : Platform} where
  -- The extracted value and the defaults are objects, or are not there yet.
  pub record IsWellFormed (r : Report P) : Type 0 where
    pub fields : Map P
    pub unique : Unique fields
    pub value_is : or_empty r.value ≡ object fields
    pub defaults : Map P
    pub default_is : or_empty r.default ≡ object defaults

  -- what the report holds for a field
  abbrev pub reported : Report P → Text → Option (Value P)
  reported r k = value_get (or_empty r.value) k

  -- the parts that the builder gives the report: the messages, the masks of each kind, the table of
  -- masks by index, and the answer
  abbrev pub given :
      Report P
      → List P.MessageParam
        × List BoolMask
        × List (NumberMask P)
        × List StringMask
        × List StringArrayMask
        × List StringEnumMask
        × List (List Text)
        × Option (Value P)
  given r = (
    r.messages, r.bool_masks, r.number_masks, r.string_masks, r.string_array_masks,
    r.string_enum_masks, r.masks_by_index, r.ir,
  )

  pub record Changes (field : Text) (r r' : Report P) : Type 0 where
    pub wf : IsWellFormed r'
    pub others : (k : Text) → k ≢ field → reported r' k ≡ reported r k
    pub rules : r'.rules_matched ≡ r.rules_matched
    pub default : r'.default ≡ r.default
    pub same_given : given r' ≡ given r

  pub store_lem :
      (field : Text) (v : Value P) (r : Report P) (h : IsWellFormed r)
      → store field v r ≡ some (record r { value = some (object (insert h.fields field v)) })
  unfolding store index_set
  store_lem field v r h = rw h.value_is

  pub reported-store :
      (field k : Text) (v : Value P) (r : Report P) (h : IsWellFormed r)
      → value_get (object (insert h.fields field v)) k
        ≡ (if text_eq field k then some v else reported r k)
  unfolding value_get
  reported-store field k v r h = rw h.value_is (get-insert h.fields field k v)

  pub Changes-store :
      (field : Text) (v : Value P) (r : Report P)
      → IsWellFormed r
      → Ends (store field v r) (Changes field r)
  Changes-store field v r h = rw (store_lem field v r h) (record {
    wf = record {
      fields = insert h.fields field v;
      unique = Unique-insert h.fields field v h.unique;
      value_is = refl;
      defaults = h.defaults;
      default_is = h.default_is;
    };
    others = λ k ne. ground (arith, reported-store field k v r h, text_eq_iff field k);
    rules = refl;
    default = refl;
    same_given = refl;
  })

  pub Changes-quiet :
      (field : Text) {r r' : Report P}
      → IsWellFormed r
      → r'.value ≡ some (or_empty r.value)
      → r'.default ≡ r.default
      → r'.rules_matched ≡ r.rules_matched
      → given r' ≡ given r
      → Changes field r r'
  Changes-quiet field {r} {r'} h v d s m = record {
    wf = record {
      fields = h.fields;
      unique = h.unique;
      value_is = ap or_empty v ∙ h.value_is;
      defaults = h.defaults;
      default_is = ap or_empty d ∙ h.default_is;
    };
    others = λ k ne. ap (λ o. value_get (or_empty o) k) v;
    rules = s;
    default = d;
    same_given = m;
  }

  -- the report of policy `i` for one field: the rule is noted, and that field alone may change
  pub record Reports (i : ℕ) (field : Text) (r r' : Report P) : Type 0 where
    pub wf : IsWellFormed r'
    pub others : (k : Text) → k ≢ field → reported r' k ≡ reported r k
    pub rules : r'.rules_matched ≡ r.rules_matched ++ i ∷ []
    pub default : r'.default ≡ r.default
    pub same_given : given r' ≡ given r

  -- what holds of the result for two reasons
  pub Ends-both :
      (Q Q' : Report P → Type 0) (o : Option (Report P))
      → Ends o Q
      → Ends o Q'
      → Ends o (λ r. Q r × Q' r)
  Ends-both Q Q' none h k = h
  Ends-both Q Q' (some r) h k = (h, k)

  pub Ends-imp :
      {Q Q' : Report P → Type 0} (o : Option (Report P))
      → ((r : Report P) → Q r → Q' r)
      → Ends o Q
      → Ends o Q'
  Ends-imp none f h = h
  Ends-imp (some r) f h = f r h

  abbrev pub noted :
      (i : ℕ) (r : Report P) → IsWellFormed r → IsWellFormed (report_policy_index i r)
  noted i r h = record {
    fields = h.fields;
    unique = h.unique;
    value_is = h.value_is;
    defaults = h.defaults;
    default_is = h.default_is;
  }

  pub Reports-Changes :
      (i : ℕ) (field : Text) (r r' : Report P)
      → Changes field (report_policy_index i r) r'
      → Reports i field r r'
  Reports-Changes i field r r' h = record {
    wf = h.wf;
    others = h.others;
    rules = h.rules;
    default = h.default;
    same_given = h.same_given;
  }
