-- ===== src/ReportBuilder/Policies/Coherence.antt =====
-- The rule numbers: those of the masks are the positions of the policies that were added.
use policyai.Prelude.{
  ℕ, ◌+◌, ◌≤◌, ◌<◌, Text, ◌≡◌, refl, Option, none, some, List, [], ◌∷◌, ◌++◌, arith, All,
  All-append, All-imp, length, length-append,
}
use policyai.Json.{Platform, Value, null, bool, number, string, array, object, Map, value_get}
use policyai.Field
use policyai.Field.{Field, OnConflict, T64}
use policyai.PolicyType
use policyai.PolicyType.{Policy}
use policyai.ReportBuilder.{
  Schemas, ReportBuilder, Pending, Outcome, ok, err, bind, pending, commit, initial,
}
use policyai.ReportBuilder.Policies.{
  collect_strings, enum_value, push_number, push_string, push_string_array, push_string_enum,
  add_value, add_field, add_fields, conclude, add_policy,
}

-- the property of the result, if there is one
abbrev pub Succeeds {ℓ} : {P : Platform} {A : Type ℓ} → Outcome P A → (A → Type 0) → Type 0
Succeeds (ok a) Q = Q a
Succeeds (err e) Q = Unit

-- a rule number that was given out
abbrev pub IsRule : ℕ → ℕ → Type 0
IsRule next i = (1 ≤ i) × (i < next)

module _ {P : Platform} where
  -- Every collected mask is of rule `i`.
  pub record OfRule (i : ℕ) (p : Pending P) : Type 0 where
    pub bools : All (λ m. m.policy_index ≡ i) p.new_bool_masks
    pub numbers : All (λ m. m.policy_index ≡ i) p.new_number_masks
    pub strings : All (λ m. m.policy_index ≡ i) p.new_string_masks
    pub arrays : All (λ m. m.policy_index ≡ i) p.new_string_array_masks
    pub enums : All (λ m. m.policy_index ≡ i) p.new_string_enum_masks

  pub record IsCoherent (b : ReportBuilder P) : Type 0 where
    pub next : b.policy_index ≡ length b.masks_by_index + 1
    pub bools : All (λ m. IsRule b.policy_index m.policy_index) b.bool_masks
    pub numbers : All (λ m. IsRule b.policy_index m.policy_index) b.number_masks
    pub strings : All (λ m. IsRule b.policy_index m.policy_index) b.string_masks
    pub arrays : All (λ m. IsRule b.policy_index m.policy_index) b.string_array_masks
    pub enums : All (λ m. IsRule b.policy_index m.policy_index) b.string_enum_masks
    pub defaults : Map P
    pub defaults_are : b.default_return ≡ object defaults

module _ {P : Platform} (S : Schemas P) (uuid : ℕ → Text) (i : ℕ) where
  OfRule-number :
      (name : Text) (d : Option (T64 P)) (c : OnConflict) (v : Option P.Number) (p : Pending P)
      → OfRule i p
      → OfRule i (push_number S uuid i name d c v p)
  unfolding push_number
  OfRule-number name d c v p h = record {
    bools = h.bools;
    numbers = All-append _ _ _ h.numbers (refl, tt);
    strings = h.strings;
    arrays = h.arrays;
    enums = h.enums;
  }

  OfRule-string :
      (name : Text) (d : Option Text) (c : OnConflict) (v : Option Text) (p : Pending P)
      → OfRule i p
      → OfRule i (push_string S uuid i name d c v p)
  unfolding push_string
  OfRule-string name d c v p h = record {
    bools = h.bools;
    numbers = h.numbers;
    strings = All-append _ _ _ h.strings (refl, tt);
    arrays = h.arrays;
    enums = h.enums;
  }

  OfRule-array :
      (name : Text) (strings : List Text) (p : Pending P)
      → OfRule i p
      → OfRule i (push_string_array S uuid i name strings p)
  unfolding push_string_array
  OfRule-array name strings p h = record {
    bools = h.bools;
    numbers = h.numbers;
    strings = h.strings;
    arrays = All-append _ _ _ h.arrays (refl, tt);
    enums = h.enums;
  }

  OfRule-enum :
      (name : Text) (d : Option Text) (c : OnConflict) (v : Option Text) (p : Pending P)
      → OfRule i p
      → OfRule i (push_string_enum S uuid i name d c v p)
  unfolding push_string_enum
  OfRule-enum name d c none p h = record {
    bools = h.bools;
    numbers = h.numbers;
    strings = h.strings;
    arrays = h.arrays;
    enums = All-append _ _ _ h.enums (refl, tt);
  }
  OfRule-enum name d c (some x) p h = record {
    bools = h.bools;
    numbers = h.numbers;
    strings = h.strings;
    arrays = h.arrays;
    enums = All-append _ _ _ h.enums (refl, tt);
  }

  Succeeds-bind {ℓ} :
      {A : Type ℓ} (o : Outcome P A) (f : A → Outcome P (Pending P)) (Q : Pending P → Type 0)
      → ((a : A) → Succeeds (f a) Q)
      → Succeeds (bind o f) Q
  Succeeds-bind (ok a) f Q h = h a
  Succeeds-bind (err e) f Q h = tt

  OfRule-add_value :
      (f : Field P) (v : Value P) (p : Pending P)
      → OfRule i p
      → Succeeds (add_value S uuid i f v p) (OfRule i)
  unfolding add_value
  OfRule-add_value (Field.bool name d c) (bool _) p h = record {
    bools = All-append _ _ _ h.bools (refl, tt);
    numbers = h.numbers;
    strings = h.strings;
    arrays = h.arrays;
    enums = h.enums;
  }
  OfRule-add_value (Field.bool name d c) _ p h = tt
  OfRule-add_value (Field.number name d c) (number v) p h = OfRule-number name d c (some v) p h
  OfRule-add_value (Field.number name d c) null p h = OfRule-number name d c none p h
  OfRule-add_value (Field.number name d c) _ p h = tt
  OfRule-add_value (Field.string name d c) (string v) p h = OfRule-string name d c (some v) p h
  OfRule-add_value (Field.string name d c) null p h = OfRule-string name d c none p h
  OfRule-add_value (Field.string name d c) _ p h = tt
  OfRule-add_value (Field.string_array name) (array vs) p h =
      Succeeds-bind (collect_strings name vs) _ (OfRule i)
        (λ strings. OfRule-array name strings p h)
  OfRule-add_value (Field.string_array name) _ p h = tt
  OfRule-add_value (Field.string_enum name values d c) v p h =
      Succeeds-bind (enum_value name values v) _ (OfRule i)
        (λ found. OfRule-enum name d c found p h)

  OfRule-add_field :
      (found : Option (Value P)) (f : Field P) (p : Pending P)
      → OfRule i p
      → Succeeds (add_field S uuid i found f p) (OfRule i)
  unfolding add_field
  OfRule-add_field none f p h = h
  OfRule-add_field (some v) f p h = OfRule-add_value f v p h

  and_then :
      (o : Outcome P (Pending P)) (f : Pending P → Outcome P (Pending P))
      → Succeeds o (OfRule i)
      → ((p : Pending P) → OfRule i p → Succeeds (f p) (OfRule i))
      → Succeeds (bind o f) (OfRule i)
  and_then (ok p) f h k = k p h
  and_then (err e) f h k = tt

  OfRule-add_fields :
      (action : Value P) (fs : List (Field P)) (p : Pending P)
      → OfRule i p
      → Succeeds (add_fields S uuid i action fs p) (OfRule i)
  unfolding add_fields
  OfRule-add_fields action [] p h = h
  OfRule-add_fields action (f ∷ fs) p h =
      and_then _ (add_fields S uuid i action fs)
        (OfRule-add_field (value_get action (Field.name f)) f p h)
        (λ q k. OfRule-add_fields action fs q k)

-- rule numbers stay given out, and the next one is given out too
grown {ℓ} :
    {M : Type ℓ} (index : M → ℕ) (n : ℕ) (old new : List M)
    → 1 ≤ n
    → All (λ m. IsRule n (index m)) old
    → All (λ m. index m ≡ n) new
    → All (λ m. IsRule (n + 1) (index m)) (old ++ new)
grown index n old new pos h k =
    All-append _ old new (All-imp _ _ old (λ m r. (r.0, omega arith)) h)
      (All-imp _ _ new (λ m e. (omega arith, omega arith)) k)

module _ {P : Platform} where
  commit-IsCoherent :
      (b : ReportBuilder P) (p : Pending P)
      → IsCoherent b
      → OfRule b.policy_index p
      → IsCoherent (commit b p)
  unfolding commit
  commit-IsCoherent b p h k =
      let pos : 1 ≤ b.policy_index = omega (arith, h.next) in
      record {
        next = omega (arith, h.next, length-append b.masks_by_index (p.new_masks ∷ []));
        bools = grown _ _ b.bool_masks _ pos h.bools k.bools;
        numbers = grown _ _ b.number_masks _ pos h.numbers k.numbers;
        strings = grown _ _ b.string_masks _ pos h.strings k.strings;
        arrays = grown _ _ b.string_array_masks _ pos h.arrays k.arrays;
        enums = grown _ _ b.string_enum_masks _ pos h.enums k.enums;
        defaults = h.defaults;
        defaults_are = h.defaults_are;
      }

  conclude-IsCoherent :
      (b : ReportBuilder P) (drawn : ℕ) (o : Outcome P (Pending P))
      → IsCoherent b
      → Succeeds o (OfRule b.policy_index)
      → IsCoherent (conclude b drawn o).builder
  unfolding conclude
  conclude-IsCoherent b drawn (ok p) h k = commit-IsCoherent b p h k
  conclude-IsCoherent b drawn (err e) h k = h

  pub initial-IsCoherent : (S : Schemas P) → IsCoherent (initial S)
  initial-IsCoherent S = record {
    next = omega arith;
    bools = tt;
    numbers = tt;
    strings = tt;
    arrays = tt;
    enums = tt;
    defaults = Map.end;
    defaults_are = refl;
  }

  -- Adding a policy, refused or not, keeps a coherent builder coherent: the next rule number is one more
  -- than the number of policies added, every mask has the number of one of them, and the defaults
  -- are an object.
  pub add_policy-IsCoherent :
      (S : Schemas P) (uuid : ℕ → Text) (b : ReportBuilder P) (policy : Policy P) (drawn : ℕ)
      → IsCoherent b
      → IsCoherent (add_policy S uuid b policy drawn).builder
  unfolding add_policy pending PolicyType.default_value
  add_policy-IsCoherent S uuid b policy drawn h =
      conclude-IsCoherent _ drawn _
        (record {
          next = h.next;
          bools = h.bools;
          numbers = h.numbers;
          strings = h.strings;
          arrays = h.arrays;
          enums = h.enums;
          defaults = _;
          defaults_are = refl;
        })
        (OfRule-add_fields S uuid b.policy_index policy.action policy.type.fields _
          (record { bools = tt; numbers = tt; strings = tt; arrays = tt; enums = tt }))
