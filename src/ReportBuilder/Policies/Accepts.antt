-- ===== src/ReportBuilder/Policies/Accepts.antt =====
-- Exactly which policies `add_policy` accepts, and what it leaves behind when it refuses one.
use policyai.Prelude.{
  ℕ, ◌+◌, Text, text_eq, contains, ◌≡◌, ◌↔◌, ◌∙◌, refl, ap, Bool, true, false, ◌&&◌, Option, none,
  some, List, [], ◌∷◌, inl, inr, Bool-cases,
}
use policyai.Json.{Platform, Value, null, bool, number, string, array, Values, nil, cons, value_get}
use policyai.Field
use policyai.Field.{Field, OnConflict, T64}
use policyai.PolicyType
use policyai.PolicyType.{Policy}
use policyai.Errors.{PolicyError}
use policyai.ReportBuilder.{Schemas, ReportBuilder, Pending, Outcome, ok, err, bind, pending}
use policyai.ReportBuilder.Policies.{
  find_value, collect_strings, enum_found, enum_value, add_value, add_field, add_fields, conclude,
  add_policy,
}

module _ {P : Platform} where
  abbrev pub all_strings : Values P → Bool
  all_strings nil = true
  all_strings (cons (string _) vs) = all_strings vs
  all_strings (cons _ vs) = false

  -- the values that an action may give to a field
  abbrev pub accepts : Field P → Value P → Bool
  accepts (Field.bool _ _ _) (bool _) = true
  accepts (Field.number _ _ _) (number _) = true
  accepts (Field.number _ _ _) null = true
  accepts (Field.string _ _ _) (string _) = true
  accepts (Field.string _ _ _) null = true
  accepts (Field.string_array _) (array vs) = all_strings vs
  accepts (Field.string_enum _ values _ _) (string s) = contains values s
  accepts (Field.string_enum _ values _ _) null = true
  accepts _ _ = false

  -- a field that the action does not set is always accepted
  abbrev pub accepts_found : Field P → Option (Value P) → Bool
  accepts_found f none = true
  accepts_found f (some v) = accepts f v

  abbrev pub accepts_all : Value P → List (Field P) → Bool
  accepts_all action [] = true
  accepts_all action (f ∷ fs) =
      accepts_found f (value_get action (Field.name f)) && accepts_all action fs

  abbrev pub succeeds {ℓ} : {A : Type ℓ} → Outcome P A → Bool
  succeeds (ok _) = true
  succeeds (err _) = false

  succeeds-bind {ℓ κ} :
      {A : Type ℓ} {B : Type κ} (o : Outcome P A) (f : A → Outcome P B)
      → ((a : A) → succeeds (f a) ≡ true)
      → succeeds (bind o f) ≡ succeeds o
  succeeds-bind (ok a) f h = h a
  succeeds-bind (err e) f h = refl

  succeeds-collect_strings :
      (name : Text) (vs : Values P) → succeeds (collect_strings name vs) ≡ all_strings vs
  unfolding collect_strings
  succeeds-collect_strings name nil = refl
  succeeds-collect_strings name (cons (string s) vs) =
      succeeds-bind (collect_strings name vs) (λ strings. ok (s ∷ strings)) (λ _. refl)
      ∙ succeeds-collect_strings name vs
  succeeds-collect_strings name (cons _ vs) = refl

succeeds-enum_found :
    (P : Platform) (values : List Text) (s name : Text)
    → succeeds {P = P} (enum_found name (string s) (find_value {P = P} values (string s)))
      ≡ contains values s
unfolding enum_found find_value contains
succeeds-enum_found P [] s name = refl
succeeds-enum_found P (x ∷ xs) s name = elim (Bool-cases (text_eq x s)) [
  | inl same ↦ rw same
  | inr other ↦ rw other (succeeds-enum_found P xs s name)
]

module _ {P : Platform} (S : Schemas P) (uuid : ℕ → Text) (i : ℕ) where
  succeeds-add_value :
      (f : Field P) (v : Value P) (p : Pending P)
      → succeeds (add_value S uuid i f v p) ≡ accepts f v
  unfolding add_value enum_value
  succeeds-add_value (Field.bool _ _ _) (bool _) p = refl
  succeeds-add_value (Field.bool _ _ _) _ p = refl
  succeeds-add_value (Field.number _ _ _) (number _) p = refl
  succeeds-add_value (Field.number _ _ _) null p = refl
  succeeds-add_value (Field.number _ _ _) _ p = refl
  succeeds-add_value (Field.string _ _ _) (string _) p = refl
  succeeds-add_value (Field.string _ _ _) null p = refl
  succeeds-add_value (Field.string _ _ _) _ p = refl
  succeeds-add_value (Field.string_array name) (array vs) p =
      succeeds-bind (collect_strings name vs) _ (λ _. refl) ∙ succeeds-collect_strings name vs
  succeeds-add_value (Field.string_array name) _ p = refl
  succeeds-add_value (Field.string_enum name values _ _) (string s) p =
      succeeds-bind (enum_value name values (string s)) _ (λ _. refl)
      ∙ succeeds-enum_found P values s name
  succeeds-add_value (Field.string_enum _ values _ _) null p = refl
  succeeds-add_value (Field.string_enum _ [] _ _) _ p = refl
  succeeds-add_value (Field.string_enum _ (x ∷ xs) _ _) _ p = refl

  succeeds-add_field :
      (found : Option (Value P)) (f : Field P) (p : Pending P)
      → succeeds (add_field S uuid i found f p) ≡ accepts_found f found
  unfolding add_field
  succeeds-add_field none f p = refl
  succeeds-add_field (some v) f p = succeeds-add_value f v p

  bind-both :
      (o : Outcome P (Pending P)) (f : Pending P → Outcome P (Pending P)) (c : Bool)
      → ((p : Pending P) → succeeds (f p) ≡ c)
      → succeeds (bind o f) ≡ succeeds o && c
  bind-both (ok p) f c h = h p
  bind-both (err e) f c h = refl

  succeeds-add_fields :
      (action : Value P) (fs : List (Field P)) (p : Pending P)
      → succeeds (add_fields S uuid i action fs p) ≡ accepts_all action fs
  unfolding add_fields
  succeeds-add_fields action [] p = refl
  succeeds-add_fields action (f ∷ fs) p =
      bind-both _ (add_fields S uuid i action fs) (accepts_all action fs)
        (λ q. succeeds-add_fields action fs q)
      ∙ ap (λ b. b && accepts_all action fs)
          (succeeds-add_field (value_get action (Field.name f)) f p)

module _ {P : Platform} where
  conclude-error :
      (b : ReportBuilder P) (drawn : ℕ) (o : Outcome P (Pending P))
      → ((conclude b drawn o).error ≡ none) ↔ (succeeds o ≡ true)
  unfolding conclude
  conclude-error b drawn (ok p) = (λ _. refl, λ _. refl)
  conclude-error b drawn (err e) = (λ h. cc, λ h. cc)

  -- A policy is added without an error exactly if its action gives every field that it sets a value
  -- of the field's kind: null is none for a boolean or an array, and an enumeration takes only its
  -- own values.
  pub add_policy-accepts :
      (S : Schemas P) (uuid : ℕ → Text) (b : ReportBuilder P) (policy : Policy P) (drawn : ℕ)
      → ((add_policy S uuid b policy drawn).error ≡ none)
        ↔ (accepts_all policy.action policy.type.fields ≡ true)
  unfolding add_policy
  add_policy-accepts S uuid b policy drawn =
      rw
        (← succeeds-add_fields S uuid b.policy_index policy.action policy.type.fields
          (pending policy.prompt drawn))
        (conclude-error _ drawn _)

  conclude-refused :
      (b : ReportBuilder P) (drawn : ℕ) (o : Outcome P (Pending P)) {e : PolicyError P}
      → (conclude b drawn o).error ≡ some e
      → (conclude b drawn o).builder ≡ b
  unfolding conclude
  conclude-refused b drawn (ok p) h = cc
  conclude-refused b drawn (err e) h = refl

  -- If `add_policy` fails, the builder differs from the one before in two fields only: the mask index
  -- is one more, and the defaults are those of the refused policy's type.
  pub add_policy-refused :
      (S : Schemas P) (uuid : ℕ → Text) (b : ReportBuilder P) (policy : Policy P) (drawn : ℕ)
      {e : PolicyError P}
      → (add_policy S uuid b policy drawn).error ≡ some e
      → (add_policy S uuid b policy drawn).builder ≡ record b {
        mask_index = b.mask_index + 1;
        default_return = PolicyType.default_value policy.type;
      }
  unfolding add_policy
  add_policy-refused S uuid b policy drawn h = conclude-refused _ drawn _ h
