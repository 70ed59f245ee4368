-- ===== src/Examples/Values.antt =====
-- The theorems on src/report.rs at concrete inputs.
use policyai.Examples.{naturals, blank, blank-IsWellFormed, filled, filled-IsWellFormed}
use policyai.Prelude.{
  text_eq, if◌then◌else◌, none, arith, Text, text, len, ◌≡◌, ◌↔◌, refl, true, false, some, [], ◌∷◌,
  All,
}
use policyai.Json
use policyai.Json.{
  Platform, Value, null, string, number, array, nil, cons, Map, end, entry, object, value_get,
}
use policyai.Json.Maps.{or_else}
use policyai.Field.{OnConflict}
use policyai.Errors.{string_conflict}
use policyai.Masks.Apply.{report_each}
use policyai.Masks.Apply.Gathering.{Gathered, report_each-first}
use policyai.Report.Defaults.{report_default_lem}
use policyai.Report.{report_default, merged_value, or_empty}
use policyai.Report.Values.{
  report_bool, report_string, report_string_enum, report_string_array, init_empty_string_array,
}
use policyai.Report.Values.Invariant.{Ends, reported, Reports}
use policyai.Report.Values.Totality.{
  with_string, initialised, report_string_array-Reports, init_empty_string_array-Reports,
}
use policyai.Report.Output.{merged_value_lem}
use policyai.Report.Strategies.{Settled, report_in_turn, settle_all, clash_all}
use policyai.Report.Strategies.Outcomes.{
  Among, Longest, report_bool_sticky, report_string-Longest, report_string_enum_by_length,
}
use policyai.Report.Strategies.Kinds.{
  number_kind, string_kind, enum_kind, strategy, report_as, report_as-Settled, report_as_agreement,
  report_as_default, report_as-Reports,
}

merged_value_lem_example : Ends (merged_value filled) (λ v.
    (k : Text)
    → value_get v k ≡ or_else (reported filled k) (value_get (or_empty filled.default) k))
merged_value_lem_example = merged_value_lem filled filled-IsWellFormed

report_as-Settled_example :
    Ends
      (report_in_turn
        (report_as naturals number_kind)
        (text "age")
        OnConflict.largest_value
        ((1, 3) ∷ (2, 7) ∷ [])
        blank)
      (Settled
        (text "age")
        (number (settle_all (strategy naturals number_kind) OnConflict.largest_value 3 (7 ∷ [])))
        (clash_all (strategy naturals number_kind) OnConflict.largest_value (text "age") 3 (7 ∷ []))
        blank)
unfolding value_get Json.get
report_as-Settled_example =
    report_as-Settled naturals number_kind (text "age") OnConflict.largest_value 1 3 ((2, 7) ∷ [])
      blank blank-IsWellFormed refl

report_as_agreement_example :
    Ends
      (report_in_turn
        (report_as naturals number_kind)
        (text "age")
        OnConflict.agreement
        ((1, 3) ∷ (2, 7) ∷ [])
        blank)
      (λ r'.
        (reported r' (text "age") ≡ some (number 3))
        × ((r'.conflicts ≡ [])
            ↔ All (λ w. (strategy naturals number_kind).same 3 w ≡ true) (7 ∷ []))
        × (r'.errors ≡ []))
unfolding value_get Json.get
report_as_agreement_example =
    report_as_agreement naturals number_kind (text "age") 1 3 ((2, 7) ∷ []) blank blank-IsWellFormed
      refl

report_as_default_example :
    Ends
      (report_in_turn
        (report_as naturals string_kind)
        (text "team")
        OnConflict.default
        ((1, text "ops") ∷ (2, text "web") ∷ [])
        blank)
      (Settled (text "team") (string (text "ops")) [] blank)
unfolding value_get Json.get
report_as_default_example =
    report_as_default naturals string_kind (text "team") 1 (text "ops") ((2, text "web") ∷ []) blank
      blank-IsWellFormed refl

report_bool_sticky_example :
    Ends
      (report_in_turn report_bool
        (text "urgent")
        OnConflict.largest_value
        ((1, false) ∷ (2, true) ∷ [])
        blank)
      (Settled (text "urgent") (Value.bool true) [] blank)
unfolding value_get Json.get
report_bool_sticky_example =
    report_bool_sticky (text "urgent") 1 false ((2, true) ∷ []) blank blank-IsWellFormed refl

report_string-Longest_example :
    Ends
      (report_in_turn report_string
        (text "team")
        OnConflict.largest_value
        ((1, text "ops") ∷ (2, text "design") ∷ [])
        blank)
      (λ r'.
        (w : Text) × (reported r' (text "team") ≡ some (string w))
        × Among w (text "ops" ∷ text "design" ∷ [])
        × Longest w (text "ops" ∷ text "design" ∷ [])
        × (r'.conflicts ≡ [])
        × (r'.errors ≡ []))
unfolding value_get Json.get
report_string-Longest_example =
    report_string-Longest (text "team") 1 (text "ops") ((2, text "design") ∷ []) blank
      blank-IsWellFormed refl

-- "medium" wins over "high"
report_string_enum_by_length_example :
    Ends
      (report_in_turn report_string_enum
        (text "priority")
        OnConflict.largest_value
        ((1, text "medium") ∷ (2, text "high") ∷ [])
        blank)
      (Settled
        (text "priority")
        (string (text "medium"))
        (string_conflict (text "priority") (text "medium") (text "high") ∷ [])
        blank)
    × Ends
        (report_in_turn report_string_enum
          (text "priority")
          OnConflict.largest_value
          ((2, text "high") ∷ (1, text "medium") ∷ [])
          blank)
        (Settled (text "priority") (string (text "medium")) [] blank)
unfolding value_get Json.get len text
report_string_enum_by_length_example =
    report_string_enum_by_length (text "priority") (text "medium") (text "high") 1 2 blank
      (omega arith) blank-IsWellFormed refl

report_as-Reports_example :
    Ends
      (report_as naturals enum_kind 4 (text "priority") (text "low") OnConflict.agreement filled)
      (Reports 4 (text "priority") filled)
report_as-Reports_example =
    report_as-Reports naturals enum_kind 4 (text "priority") (text "low") OnConflict.agreement
      filled filled-IsWellFormed

report_string_array-Reports_example :
    Ends (report_string_array 2 (text "tags") (text "new") filled) (λ r'.
      Reports 2 (text "tags") filled r'
      × (reported r' (text "tags")
          ≡ some (array (with_string (reported filled (text "tags")) (text "new")))))
report_string_array-Reports_example =
    report_string_array-Reports 2 (text "tags") (text "new") filled filled-IsWellFormed

init_empty_string_array-Reports_example :
    Ends (init_empty_string_array 2 (text "tags") filled) (λ r'.
      Reports 2 (text "tags") filled r'
      × (reported r' (text "tags") ≡ some (initialised (reported filled (text "tags")))))
init_empty_string_array-Reports_example =
    init_empty_string_array-Reports 2 (text "tags") filled filled-IsWellFormed

-- "a" is reported twice
report_each-first_example :
    Ends
      (report_each 2 (text "tags") (text "a" ∷ text "b" ∷ text "a" ∷ []) blank)
      (Gathered (text "tags") (text "a" ∷ []) (text "b" ∷ text "a" ∷ []))
unfolding value_get Json.get
report_each-first_example =
    report_each-first 2 (text "tags") (text "a") (text "b" ∷ text "a" ∷ []) blank blank-IsWellFormed
      refl

report_default_lem_example :
    Ends (report_default (text "priority") (string (text "high")) filled) (λ r'.
      (k : Text)
      → value_get (or_empty r'.default) k
        ≡ or_else
            (value_get (or_empty filled.default) k)
            (if text_eq (text "priority") k then some (string (text "high")) else none))
report_default_lem_example =
    report_default_lem (text "priority") (string (text "high")) filled filled-IsWellFormed
