-- ===== src/ReportBuilder/Policies.antt =====
-- `add_policy` of src/report_builder.rs: the masks of one policy, committed together. The generator
-- `Uuid::new_v4` is a supply of texts, with a counter of those handed out.
pub mod Accepts
pub mod Coherence
use policyai.Prelude.{
  ℕ, suc, ◌+◌, Text, text, text_eq, Bool, true, false, Option, none, some, List, [], ◌∷◌, ◌++◌,
  if◌then◌else◌,
}
use policyai.Json.{
  Platform, Value, null, bool, number, string, array, object, Values, nil, cons, Map, end, entry,
  get, insert, value_get, index_set, extend,
}
use policyai.Format.{debug, decimal, replace}
use policyai.Field
use policyai.Field.{Field, OnConflict, T64}
use policyai.PolicyType
use policyai.PolicyType.{PolicyType, Policy}
use policyai.Errors.{PolicyError, not_a_bool, not_a_number, not_a_string}
use policyai.Masks.{BoolMask, NumberMask, StringMask, StringArrayMask, StringEnumMask}
use policyai.Masks.Apply.{
  bool_apply_to, number_apply_to, string_apply_to, string_array_apply_to, string_enum_apply_to,
}
use policyai.Report
use policyai.Report.{Report, ◌>>=◌}
use policyai.ReportBuilder.{
  Schemas, ReportBuilder, Pending, Outcome, ok, err, bind, pending, hide, commit,
}

abbrev is_some {ℓ} : {A : Type ℓ} → Option A → Bool
is_some none = false
is_some (some _) = true

-- What `add_policy` leaves: the error, if there is one, the builder, which stays changed beside an
-- error too, and the identifiers drawn. Those drawn before an error are in no mask.
pub record Added (P : Platform) : Type 0 where
  pub error : Option (PolicyError P)
  pub builder : ReportBuilder P
  pub drawn : ℕ

module _ {P : Platform} where
  -- `values.iter().find(|x| *x == v)`; a string equals a JSON value that is that string
  unfoldable pub find_value : List Text → Value P → Option Text
  find_value [] v = none
  find_value (x ∷ xs) (string s) = if text_eq x s then some x else find_value xs (string s)
  find_value (x ∷ xs) _ = none

  -- the loop over the elements of an array
  unfoldable pub collect_strings : Text → Values P → Outcome P (List Text)
  collect_strings name nil = ok []
  collect_strings name (cons (string s) vs) =
      bind (collect_strings name vs) (λ strings. ok (s ∷ strings))
  collect_strings name (cons v vs) = err (not_a_string name v)

  -- `let Some(found_value) = .. else { return Err(..) }`
  enum_found : Text → Value P → Option Text → Outcome P (Option Text)
  enum_found name v none = err (not_a_string name v)
  enum_found name v (some x) = ok (some x)

  unfoldable pub enum_value : Text → List Text → Value P → Outcome P (Option Text)
  unfolding find_value enum_found
  enum_value name values null = ok none
  enum_value name values v = enum_found name v (find_value values v)

module _ {P : Platform} (S : Schemas P) (uuid : ℕ → Text) (policy_index : ℕ) where
  add_bool : Text → Option Bool → OnConflict → Value P → Pending P → Outcome P (Pending P)
  unfolding hide
  add_bool name d c (bool _) p =
      let mask = uuid p.drawn in
      let m : BoolMask = record {
        policy_index = policy_index;
        name = name;
        mask = mask;
        default = d;
        on_conflict = c;
      } in
      ok (hide name mask true S.bool (record p { new_bool_masks = p.new_bool_masks ++ m ∷ [] }))
  add_bool name d c v p = err (not_a_bool name v)

  push_number : Text → Option (T64 P) → OnConflict → Option P.Number → Pending P → Pending P
  unfolding hide
  push_number name d c v p =
      let mask = uuid p.drawn in
      let m : NumberMask P = record {
        policy_index = policy_index;
        name = name;
        mask = mask;
        default = d;
        value = v;
        on_conflict = c;
      } in
      hide name mask (is_some d) S.f64
        (record p { new_number_masks = p.new_number_masks ++ m ∷ [] })

  add_number : Text → Option (T64 P) → OnConflict → Value P → Pending P → Outcome P (Pending P)
  unfolding push_number
  add_number name d c (number v) p = ok (push_number name d c (some v) p)
  add_number name d c null p = ok (push_number name d c none p)
  add_number name d c v p = err (not_a_number name v)

  push_string : Text → Option Text → OnConflict → Option Text → Pending P → Pending P
  unfolding hide
  push_string name d c v p =
      let mask = uuid p.drawn in
      let m : StringMask = record {
        policy_index = policy_index;
        name = name;
        mask = mask;
        default = d;
        value = v;
        on_conflict = c;
      } in
      hide name mask (is_some d) S.string
        (record p { new_string_masks = p.new_string_masks ++ m ∷ [] })

  add_string : Text → Option Text → OnConflict → Value P → Pending P → Outcome P (Pending P)
  unfolding push_string
  add_string name d c (string v) p = ok (push_string name d c (some v) p)
  add_string name d c null p = ok (push_string name d c none p)
  add_string name d c v p = err (not_a_string name v)

  -- the strings are checked, and not kept in the mask
  push_string_array : Text → List Text → Pending P → Pending P
  unfolding hide
  push_string_array name strings p =
      let mask = uuid p.drawn in
      let m : StringArrayMask = record { policy_index = policy_index; name = name; mask = mask } in
      hide name mask false S.strings
        (record p { new_string_array_masks = p.new_string_array_masks ++ m ∷ [] })

  add_string_array : Text → Value P → Pending P → Outcome P (Pending P)
  unfolding push_string_array collect_strings
  add_string_array name (array vs) p =
      bind (collect_strings name vs) (λ strings. ok (push_string_array name strings p))
  add_string_array name v p = err (not_a_string name v)

  -- the quoted value of the enumeration becomes `true` in the prompt
  hide_value : Option Text → Pending P → Pending P
  hide_value none p = p
  hide_value (some v) p = record p { content = replace p.content (debug P v) (text "true") }

  push_string_enum : Text → Option Text → OnConflict → Option Text → Pending P → Pending P
  unfolding hide hide_value
  push_string_enum name d c v p =
      let mask = uuid p.drawn in
      let m : StringEnumMask = record {
        policy_index = policy_index;
        name = name;
        mask = mask;
        value = v;
        default = d;
        on_conflict = c;
      } in
      hide_value v (
        hide name mask (is_some d) S.bool
          (record p { new_string_enum_masks = p.new_string_enum_masks ++ m ∷ [] }))

  add_string_enum :
      Text → List Text → Option Text → OnConflict → Value P → Pending P → Outcome P (Pending P)
  unfolding push_string_enum enum_value
  add_string_enum name values d c v p =
      bind (enum_value name values v) (λ found. ok (push_string_enum name d c found p))

  -- the `match` on the field, at the value that the action gives it
  unfoldable pub add_value : Field P → Value P → Pending P → Outcome P (Pending P)
  unfolding add_bool add_number add_string add_string_array add_string_enum
  add_value (Field.bool name d c) v p = add_bool name d c v p
  add_value (Field.number name d c) v p = add_number name d c v p
  add_value (Field.string name d c) v p = add_string name d c v p
  add_value (Field.string_array name) v p = add_string_array name v p
  add_value (Field.string_enum name values d c) v p = add_string_enum name values d c v p

  -- a field that the action does not set is passed over
  unfoldable pub add_field : Option (Value P) → Field P → Pending P → Outcome P (Pending P)
  unfolding add_value
  add_field none f p = ok p
  add_field (some v) f p = add_value f v p

  unfoldable pub add_fields : Value P → List (Field P) → Pending P → Outcome P (Pending P)
  add_fields action [] p = ok p
  add_fields action (f ∷ fs) p =
      bind (add_field (value_get action (Field.name f)) f p) (add_fields action fs)

module _ {P : Platform} where
  unfoldable pub conclude : ReportBuilder P → ℕ → Outcome P (Pending P) → Added P
  unfolding commit
  conclude b drawn (err e) = record { error = some e; builder = b; drawn = drawn }
  conclude b drawn (ok p) = record { error = none; builder = commit b p; drawn = p.drawn }

  unfoldable pub add_policy : Schemas P → (ℕ → Text) → ReportBuilder P → Policy P → ℕ → Added P
  unfolding conclude add_fields pending
  add_policy S uuid b0 policy drawn =
      let b = record b0 {
        mask_index = b0.mask_index + 1;
        default_return = PolicyType.default_value policy.type;
      } in
      conclude b drawn (
        add_fields S uuid b.policy_index policy.action policy.type.fields
          (pending policy.prompt drawn))
