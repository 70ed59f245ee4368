-- ===== src/Report/Strategies/Instances/Enums.antt =====
-- The reports of values of an enumeration implement their strategy.
use policyai.Report.Strategies.Instances.{enum_strategy, Settled-store, Settled-keep, Settled-noted}
use policyai.Prelude.{
  Text, text_eq, len, ltb, ◌≡◌, refl, sym, false, not, some, [], append-nil, if◌then◌else◌, inl,
  inr, Bool-cases,
}
use mathlib.Core.Path.{subst}
use policyai.Json.{Platform, string}
use policyai.Field.{OnConflict}
use policyai.Report.{Report, report_policy_index}
use policyai.Report.Values.{touch, resolve_enum, enum_at, report_string_enum}
use policyai.Report.Values.Invariant.{Ends, IsWellFormed, reported, noted}
use policyai.Report.Strategies.{settle, clash, Settled, Implements}

module _ {P : Platform} where
  enum_resolves :
      (c : OnConflict) (field : Text) (a v : Text) (r : Report P)
      → IsWellFormed r
      → reported r field ≡ some (string a)
      → text_eq a v ≡ false
      → Ends (resolve_enum c field a v r) (
          Settled field
            (string (settle (enum_strategy P) c a v))
            (clash (enum_strategy P) c field a v)
            r)
  unfolding resolve_enum touch
  enum_resolves OnConflict.default field a v r h e other =
      rw other (Settled-keep field _ _ h e refl refl (sym (append-nil _)) refl)
  enum_resolves OnConflict.agreement field a v r h e other =
      rw other (Settled-keep field _ _ h e refl refl refl refl)
  enum_resolves OnConflict.largest_value field a v r h e other =
      elim (Bool-cases (ltb (len a) (len v))) [
        | inl more ↦ rw (other, more) (Settled-store field _ r h)
        | inr less ↦ rw (other, less) (Settled-keep field _ _ h e refl refl refl refl)
      ]

  enum_settles :
      (c : OnConflict) (field : Text) (a v : Text) (r : Report P)
      → IsWellFormed r
      → reported r field ≡ some (string a)
      → Ends (enum_at (some (string a)) field v c r) (
          Settled field
            (string (settle (enum_strategy P) c a v))
            (clash (enum_strategy P) c field a v)
            r)
  unfolding enum_at touch
  enum_settles c field a v r h e = elim (Bool-cases (text_eq a v)) [
    | inl equal ↦ rw equal (Settled-keep field _ _ h e refl refl (sym (append-nil _)) refl)
    | inr other ↦
        subst
          (λ t. Ends (if not t then resolve_enum c field a v r else some (touch r)) (
            Settled field (string (settle (enum_strategy P) c a v))
              (clash (enum_strategy P) c field a v) r))
          (sym other) (enum_resolves c field a v r h e other)
  ]

  pub report_string_enum-Implements : Implements (enum_strategy P) report_string_enum
  unfolding report_string_enum enum_at
  report_string_enum-Implements = record {
    first = λ i field v c r h e. Settled-noted i field _ _ r _ (
        subst
          (λ w.
            Ends (enum_at w field v c (report_policy_index i r))
              (Settled field (string v) [] (report_policy_index i r)))
          (sym e) (Settled-store field _ (report_policy_index i r) (noted i r h)));
    next = λ i field a v c r h e. Settled-noted i field _ _ r _ (
        subst
          (λ w. Ends (enum_at w field v c (report_policy_index i r)) (
            Settled field (string (settle (enum_strategy P) c a v))
              (clash (enum_strategy P) c field a v) (report_policy_index i r)))
          (sym e) (enum_settles c field a v (report_policy_index i r) (noted i r h) e));
  }
