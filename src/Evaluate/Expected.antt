-- ===== src/Evaluate/Expected.antt =====
-- What `build_expected_with_defaults` has at each key.
use policyai.Prelude.{
  Bool, true, false, Text, text_eq, ◌≡◌, refl, sym, ap, ◌∙◌, Option, none, some, List, [], ◌∷◌,
  if◌then◌else◌,
}
use policyai.Json.{
  Platform, Value, object, null, bool, number, string, array, Map, end, entry, get, insert,
  value_get,
}
use policyai.Json.Maps.{or_else-none, get-or_insert, or_else, Unique, get-extend-Unique}
use policyai.PolicyType
use policyai.PolicyType.{Policy}
use policyai.Evaluate.{
  as_object, or_insert_all, or_insert_object, collect_policies, override,
  build_expected_with_defaults,
}

module _ {P : Platform} where
  or_else_assoc : (a b c : Option (Value P)) → or_else (or_else a b) c ≡ or_else a (or_else b c)
  or_else_assoc none b c = refl
  or_else_assoc (some a) b c = refl

  or_else_if :
      (b : Bool) (v : Value P) (c : Option (Value P))
      → or_else (if b then some v else none) c ≡ (if b then some v else c)
  or_else_if true v c = refl
  or_else_if false v c = refl

  get-or_insert_all :
      (n m : Map P) (j : Text) → get (or_insert_all m n) j ≡ or_else (get m j) (get n j)
  unfolding or_insert_all get
  get-or_insert_all end m j = sym (or_else-none (get m j))
  get-or_insert_all (entry k v n) m j =
      get-or_insert_all n (elim (get m k) [ none ↦ insert m k v | some _ ↦ m ]) j
      ∙ ap (λ o. or_else o (get n j)) (get-or_insert (get m k) m k j v refl)
      ∙ or_else_assoc (get m j) (if text_eq k j then some v else none) (get n j)
      ∙ ap (or_else (get m j)) (or_else_if (text_eq k j) v (get n j))

  -- the first of the policies whose type has a default at the key
  abbrev pub first_default : List (Policy P) → Text → Option (Value P)
  first_default [] k = none
  first_default (p ∷ ps) k =
      or_else (value_get (PolicyType.default_value p.type) k) (first_default ps k)

  get-or_insert_object :
      (v : Value P) (m : Map P) (k : Text)
      → get (or_insert_object m (as_object v)) k ≡ or_else (get m k) (value_get v k)
  unfolding or_insert_object as_object value_get
  get-or_insert_object (object n) m k = get-or_insert_all n m k
  get-or_insert_object null m k = sym (or_else-none (get m k))
  get-or_insert_object (bool _) m k = sym (or_else-none (get m k))
  get-or_insert_object (number _) m k = sym (or_else-none (get m k))
  get-or_insert_object (string _) m k = sym (or_else-none (get m k))
  get-or_insert_object (array _) m k = sym (or_else-none (get m k))

  get-collect_policies :
      (ps : List (Policy P)) (m : Map P) (k : Text)
      → get (collect_policies m ps) k ≡ or_else (get m k) (first_default ps k)
  unfolding collect_policies
  get-collect_policies [] m k = sym (or_else-none (get m k))
  get-collect_policies (p ∷ ps) m k =
      let v = PolicyType.default_value p.type in
      get-collect_policies ps (or_insert_object m (as_object v)) k
      ∙ ap (λ o. or_else o (first_default ps k)) (get-or_insert_object v m k)
      ∙ or_else_assoc (get m k) (value_get v k) (first_default ps k)

  -- Where the expectation is an object without duplicate keys, what is expected at a key is what the
  -- object has there, and else the default of the first policy whose type has one at the key.
  pub build_expected_with_defaults_lem :
      (ps : List (Policy P)) (expected : Map P) (k : Text)
      → Unique expected
      → get (build_expected_with_defaults ps (some (object expected))) k
        ≡ or_else (get expected k) (first_default ps k)
  unfolding build_expected_with_defaults override
  build_expected_with_defaults_lem ps expected k u =
      get-extend-Unique (collect_policies end ps) expected k u
      ∙ ap (or_else (get expected k)) (unfold get in get-collect_policies ps end k)
