-- ===== src/Masks/Apply/Matches/Scalars.antt =====
-- The masks of boolean, number, string and enumeration fields.
use policyai.Prelude.{
  Text, text_eq, refl, sym, Bool, true, false, Option, none, some, [], ◌∷◌, append-nil, inl, inr,
  Bool-cases,
}
use policyai.Json.{Platform, Value, bool, number, string}
use policyai.Numbers.{number_is_equal}
use policyai.Masks.{BoolMask, NumberMask, StringMask, StringEnumMask}
use policyai.Report.{Report, report_bool_default, report_number_default, report_string_default}
use policyai.Report.Values.Invariant.{Ends, IsWellFormed}
use policyai.Report.Values.Scalars.{
  report_bool-Reports, report_number-Reports, report_string-Reports, report_string_enum-Reports,
}
use policyai.Masks.Apply.{
  apply_bool, bool_default, apply_number, number_found, number_missing, number_default,
  apply_string, string_found, string_default, apply_string_enum, enum_set,
}
use policyai.Masks.Apply.Matches.{
  Other, bool_matches, number_matches, string_matches, string_enum_matches, Applied, Applied-same,
  noted_as, unchanged, defaulted,
}

module _ {P : Platform} where
  bool_default-Applied :
      (d : Option Bool) (name : Text) (r : Report P)
      → IsWellFormed r
      → Ends (bool_default d name r) (Applied [] (Other name) r)
  unfolding bool_default report_bool_default
  bool_default-Applied none name r h = unchanged (Other name) r h
  bool_default-Applied (some v) name r h = defaulted name _ r h

  -- On a well-formed report the mask of a boolean field never panics. It notes its rule exactly if a
  -- boolean, true or false, is found at the mask, it leaves the report well formed, and it reports
  -- nothing for any other field.
  pub apply_bool-Applied :
      (found : Option (Value P)) (m : BoolMask) (r : Report P)
      → IsWellFormed r
      → Ends (apply_bool found m r) (Applied (bool_matches found m) (Other m.name) r)
  unfolding apply_bool
  apply_bool-Applied none m r h = bool_default-Applied m.default m.name r h
  apply_bool-Applied (some (bool b)) m r h = noted_as _ _ r _ (report_bool-Reports _ _ b _ r h)
  apply_bool-Applied (some _) m r h =
      Applied-same [] (Other m.name) h refl refl (sym (append-nil _)) refl

  number_default-Applied :
      (o : Option P.Number) (name : Text) (r : Report P)
      → IsWellFormed r
      → Ends (number_default o name r) (Applied [] (Other name) r)
  unfolding number_default report_number_default
  number_default-Applied none name r h =
      Applied-same [] (Other name) h refl refl (sym (append-nil _)) refl
  number_default-Applied (some n) name r h = defaulted name _ r h

  number_missing-Applied :
      (d : Option P.F64) (name : Text) (r : Report P)
      → IsWellFormed r
      → Ends (number_missing d name r) (Applied [] (Other name) r)
  unfolding number_missing
  number_missing-Applied none name r h = unchanged (Other name) r h
  number_missing-Applied (some d) name r h = number_default-Applied (P.from_f64 d) name r h

  number_found-Applied :
      (e : Option P.Number) (v : P.Number) (m : NumberMask P) (r : Report P)
      → IsWellFormed r
      → Ends (number_found e v m r) (Applied (m.policy_index ∷ []) (Other m.name) r)
  unfolding number_found
  number_found-Applied none v m r h = noted_as _ _ r _ (report_number-Reports _ _ v _ r h)
  number_found-Applied (some e) v m r h = elim (Bool-cases (number_is_equal P v e)) [
    | inl same ↦ rw same (noted_as _ _ r _ (report_number-Reports _ _ v _ r h))
    | inr other ↦ rw other (Applied-same _ (Other m.name) h refl refl refl refl)
  ]

  -- On a well-formed report the mask of a number field never panics. It notes its rule exactly if a
  -- number is found at the mask, also one that is not the number of the policy, it leaves the report
  -- well formed, and it reports nothing for any other field.
  pub apply_number-Applied :
      (found : Option (Value P)) (m : NumberMask P) (r : Report P)
      → IsWellFormed r
      → Ends (apply_number found m r) (Applied (number_matches found m) (Other m.name) r)
  unfolding apply_number
  apply_number-Applied none m r h = number_missing-Applied m.default m.name r h
  apply_number-Applied (some (number v)) m r h = number_found-Applied m.value v m r h
  apply_number-Applied (some _) m r h =
      Applied-same [] (Other m.name) h refl refl (sym (append-nil _)) refl

  string_default-Applied :
      (d : Option Text) (name : Text) (r : Report P)
      → IsWellFormed r
      → Ends (string_default d name r) (Applied [] (Other name) r)
  unfolding string_default report_string_default
  string_default-Applied none name r h = unchanged (Other name) r h
  string_default-Applied (some d) name r h = defaulted name _ r h

  string_found-Applied :
      (e : Option Text) (v : Text) (m : StringMask) (r : Report P)
      → IsWellFormed r
      → Ends (string_found e v m r) (Applied (m.policy_index ∷ []) (Other m.name) r)
  unfolding string_found
  string_found-Applied none v m r h = noted_as _ _ r _ (report_string-Reports _ _ v _ r h)
  string_found-Applied (some e) v m r h = elim (Bool-cases (text_eq v e)) [
    | inl same ↦ rw same (noted_as _ _ r _ (report_string-Reports _ _ v _ r h))
    | inr other ↦ rw other (Applied-same _ (Other m.name) h refl refl refl refl)
  ]

  -- On a well-formed report the mask of a string field never panics. It notes its rule exactly if a
  -- string is found at the mask, also one that is not the string of the policy, it leaves the report
  -- well formed, and it reports nothing for any other field.
  pub apply_string-Applied :
      (found : Option (Value P)) (m : StringMask) (r : Report P)
      → IsWellFormed r
      → Ends (apply_string found m r) (Applied (string_matches found m) (Other m.name) r)
  unfolding apply_string
  apply_string-Applied none m r h = string_default-Applied m.default m.name r h
  apply_string-Applied (some (string v)) m r h = string_found-Applied m.value v m r h
  apply_string-Applied (some _) m r h =
      Applied-same [] (Other m.name) h refl refl (sym (append-nil _)) refl

  enum_set-Applied :
      (e : Option Text) (m : StringEnumMask) (r : Report P)
      → IsWellFormed r
      → Ends (enum_set e m r) (Applied (m.policy_index ∷ []) (Other m.name) r)
  unfolding enum_set
  enum_set-Applied (some v) m r h = noted_as _ _ r _ (report_string_enum-Reports _ _ v _ r h)
  enum_set-Applied none m r h = Applied-same _ (Other m.name) h refl refl refl refl

  -- On a well-formed report the mask of an enumeration field never panics. It notes its rule exactly
  -- if `true` is found at the mask, it leaves the report well formed, and it reports nothing for any
  -- other field.
  pub apply_string_enum-Applied :
      (found : Option (Value P)) (m : StringEnumMask) (r : Report P)
      → IsWellFormed r
      → Ends (apply_string_enum found m r) (Applied (string_enum_matches found m) (Other m.name) r)
  unfolding apply_string_enum
  apply_string_enum-Applied none m r h = string_default-Applied m.default m.name r h
  apply_string_enum-Applied (some (bool true)) m r h = enum_set-Applied m.value m r h
  apply_string_enum-Applied (some (bool false)) m r h = string_default-Applied m.default m.name r h
  apply_string_enum-Applied (some _) m r h =
      Applied-same [] (Other m.name) h refl refl (sym (append-nil _)) refl
