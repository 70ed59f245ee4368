-- ===== src/Report/Values/Scalars.antt =====
-- Every report of a boolean, a number, a string or a value of an enumeration ends without a panic in a
-- well-formed report, and touches its field only.
use policyai.Prelude.{
  ℕ, Text, text_eq, Bool, true, false, Option, none, some, inl, inr, Bool-cases, refl, ltb, len,
}
use policyai.Json.{Platform, Value, null, bool, number, string}
use policyai.Json.Equality.{bool_eq}
use policyai.Numbers.{number_is_equal, number_less_than}
use policyai.Field.{OnConflict}
use policyai.Report.{Report}
use policyai.Report.Values.{
  touch, resolve_bool, bool_at, report_bool, resolve_number, number_at, report_number,
  resolve_string, string_at, report_string, resolve_enum, enum_at, report_string_enum,
}
use policyai.Report.Values.Invariant.{
  Ends, Ends-imp, IsWellFormed, Changes, Changes-store, Changes-quiet, Reports, Reports-Changes,
  noted,
}

module _ {P : Platform} where
  Changes-resolve_bool :
      (c : OnConflict) (field : Text) (b v : Bool) (r : Report P)
      → IsWellFormed r
      → Ends (resolve_bool c field b v r) (Changes field r)
  unfolding resolve_bool
  Changes-resolve_bool OnConflict.default field b v r h = Changes-quiet field h refl refl refl refl
  Changes-resolve_bool OnConflict.agreement field b v r h =
      Changes-quiet field h refl refl refl refl
  Changes-resolve_bool OnConflict.largest_value field b true r h = Changes-store field _ r h
  Changes-resolve_bool OnConflict.largest_value field b false r h =
      Changes-quiet field h refl refl refl refl

  Changes-bool_at :
      (w : Option (Value P)) (field : Text) (v : Bool) (c : OnConflict) (r : Report P)
      → IsWellFormed r
      → Ends (bool_at w field v c r) (Changes field r)
  unfolding bool_at touch
  Changes-bool_at none field v c r h = Changes-store field _ r h
  Changes-bool_at (some null) field v c r h = Changes-store field _ r h
  Changes-bool_at (some (bool b)) field v c r h = elim (Bool-cases (bool_eq b v)) [
    | inl same ↦ rw same (Changes-quiet field h refl refl refl refl)
    | inr other ↦ rw other (Changes-resolve_bool c field b v r h)
  ]
  Changes-bool_at (some _) field v c r h = Changes-quiet field h refl refl refl refl

  -- for a boolean
  pub report_bool-Reports :
      (i : ℕ) (field : Text) (v : Bool) (c : OnConflict) (r : Report P)
      → IsWellFormed r
      → Ends (report_bool i field v c r) (Reports i field r)
  unfolding report_bool
  report_bool-Reports i field v c r h =
      Ends-imp _ (Reports-Changes i field r) (Changes-bool_at _ field v c _ (noted i r h))

  Changes-resolve_number :
      (c : OnConflict) (field : Text) (b v : P.Number) (r : Report P)
      → IsWellFormed r
      → Ends (resolve_number c field b v r) (Changes field r)
  unfolding resolve_number
  Changes-resolve_number OnConflict.default field b v r h =
      Changes-quiet field h refl refl refl refl
  Changes-resolve_number OnConflict.agreement field b v r h =
      Changes-quiet field h refl refl refl refl
  Changes-resolve_number OnConflict.largest_value field b v r h =
      elim (Bool-cases (number_less_than P b v)) [
        | inl more ↦ rw more (Changes-store field _ r h)
        | inr less ↦ rw less (Changes-quiet field h refl refl refl refl)
      ]

  Changes-number_at :
      (w : Option (Value P)) (field : Text) (v : P.Number) (c : OnConflict) (r : Report P)
      → IsWellFormed r
      → Ends (number_at w field v c r) (Changes field r)
  unfolding number_at touch
  Changes-number_at none field v c r h = Changes-store field _ r h
  Changes-number_at (some null) field v c r h = Changes-store field _ r h
  Changes-number_at (some (number b)) field v c r h = elim (Bool-cases (number_is_equal P b v)) [
    | inl same ↦ rw same (Changes-quiet field h refl refl refl refl)
    | inr other ↦ rw other (Changes-resolve_number c field b v r h)
  ]
  Changes-number_at (some _) field v c r h = Changes-quiet field h refl refl refl refl

  -- for a number
  pub report_number-Reports :
      (i : ℕ) (field : Text) (v : P.Number) (c : OnConflict) (r : Report P)
      → IsWellFormed r
      → Ends (report_number i field v c r) (Reports i field r)
  unfolding report_number
  report_number-Reports i field v c r h =
      Ends-imp _ (Reports-Changes i field r) (Changes-number_at _ field v c _ (noted i r h))

  Changes-resolve_string :
      (c : OnConflict) (field : Text) (b v : Text) (r : Report P)
      → IsWellFormed r
      → Ends (resolve_string c field b v r) (Changes field r)
  unfolding resolve_string
  Changes-resolve_string OnConflict.default field b v r h =
      Changes-quiet field h refl refl refl refl
  Changes-resolve_string OnConflict.agreement field b v r h =
      Changes-quiet field h refl refl refl refl
  Changes-resolve_string OnConflict.largest_value field b v r h =
      elim (Bool-cases (ltb (len b) (len v))) [
        | inl more ↦ rw more (Changes-store field _ r h)
        | inr less ↦ rw less (Changes-quiet field h refl refl refl refl)
      ]

  Changes-string_at :
      (w : Option (Value P)) (field : Text) (v : Text) (c : OnConflict) (r : Report P)
      → IsWellFormed r
      → Ends (string_at w field v c r) (Changes field r)
  unfolding string_at touch
  Changes-string_at none field v c r h = Changes-store field _ r h
  Changes-string_at (some null) field v c r h = Changes-store field _ r h
  Changes-string_at (some (string b)) field v c r h = elim (Bool-cases (text_eq b v)) [
    | inl same ↦ rw same (Changes-quiet field h refl refl refl refl)
    | inr other ↦ rw other (Changes-resolve_string c field b v r h)
  ]
  Changes-string_at (some _) field v c r h = Changes-quiet field h refl refl refl refl

  -- for a string
  pub report_string-Reports :
      (i : ℕ) (field : Text) (v : Text) (c : OnConflict) (r : Report P)
      → IsWellFormed r
      → Ends (report_string i field v c r) (Reports i field r)
  unfolding report_string
  report_string-Reports i field v c r h =
      Ends-imp _ (Reports-Changes i field r) (Changes-string_at _ field v c _ (noted i r h))

  Changes-resolve_enum :
      (c : OnConflict) (field : Text) (b v : Text) (r : Report P)
      → IsWellFormed r
      → Ends (resolve_enum c field b v r) (Changes field r)
  unfolding resolve_enum
  Changes-resolve_enum OnConflict.default field b v r h = Changes-quiet field h refl refl refl refl
  Changes-resolve_enum OnConflict.agreement field b v r h =
      Changes-quiet field h refl refl refl refl
  Changes-resolve_enum OnConflict.largest_value field b v r h =
      elim (Bool-cases (ltb (len b) (len v))) [
        | inl more ↦ rw more (Changes-store field _ r h)
        | inr less ↦ rw less (Changes-quiet field h refl refl refl refl)
      ]

  Changes-enum_at :
      (w : Option (Value P)) (field : Text) (v : Text) (c : OnConflict) (r : Report P)
      → IsWellFormed r
      → Ends (enum_at w field v c r) (Changes field r)
  unfolding enum_at touch
  Changes-enum_at none field v c r h = Changes-store field _ r h
  Changes-enum_at (some null) field v c r h = Changes-store field _ r h
  Changes-enum_at (some (string b)) field v c r h = elim (Bool-cases (text_eq b v)) [
    | inl same ↦ rw same (Changes-quiet field h refl refl refl refl)
    | inr other ↦ rw other (Changes-resolve_enum c field b v r h)
  ]
  Changes-enum_at (some _) field v c r h = Changes-quiet field h refl refl refl refl

  -- for a value of an enumeration
  pub report_string_enum-Reports :
      (i : ℕ) (field : Text) (v : Text) (c : OnConflict) (r : Report P)
      → IsWellFormed r
      → Ends (report_string_enum i field v c r) (Reports i field r)
  unfolding report_string_enum
  report_string_enum-Reports i field v c r h =
      Ends-imp _ (Reports-Changes i field r) (Changes-enum_at _ field v c _ (noted i r h))
