-- ===== src/Report/Strategies/Instances/Strings.antt =====
-- The reports of strings implement their strategy.
use policyai.Report.Strategies.Instances.{
  string_strategy, Settled-store, Settled-keep, Settled-noted,
}
use policyai.Prelude.{
  Text, text_eq, len, ltb, ◌≡◌, refl, sym, false, not, some, [], append-nil, if◌then◌else◌, inl,
  inr, Bool-cases,
}
use mathlib.Core.Path.{subst}
use policyai.Json.{Platform, string}
use policyai.Field.{OnConflict}
use policyai.Report.{Report, report_policy_index}
use policyai.Report.Values.{touch, resolve_string, string_at, report_string}
use policyai.Report.Values.Invariant.{Ends, IsWellFormed, reported, noted}
use policyai.Report.Strategies.{settle, clash, Settled, Implements}

module _ {P : Platform} where
  string_resolves :
      (c : OnConflict) (field : Text) (a v : Text) (r : Report P)
      → IsWellFormed r
      → reported r field ≡ some (string a)
      → text_eq a v ≡ false
      → Ends (resolve_string c field a v r) (
          Settled field
            (string (settle (string_strategy P) c a v))
            (clash (string_strategy P) c field a v)
            r)
  unfolding resolve_string touch
  string_resolves OnConflict.default field a v r h e other =
      rw other (Settled-keep field _ _ h e refl refl (sym (append-nil _)) refl)
  string_resolves OnConflict.agreement field a v r h e other =
      rw other (Settled-keep field _ _ h e refl refl refl refl)
  string_resolves OnConflict.largest_value field a v r h e other =
      elim (Bool-cases (ltb (len a) (len v))) [
        | inl more ↦ rw (other, more) (Settled-store field _ r h)
        | inr less ↦
            rw (other, less) (Settled-keep field _ _ h e refl refl (sym (append-nil _)) refl)
      ]

  string_settles :
      (c : OnConflict) (field : Text) (a v : Text) (r : Report P)
      → IsWellFormed r
      → reported r field ≡ some (string a)
      → Ends (string_at (some (string a)) field v c r) (
          Settled field
            (string (settle (string_strategy P) c a v))
            (clash (string_strategy P) c field a v)
            r)
  unfolding string_at touch
  string_settles c field a v r h e = elim (Bool-cases (text_eq a v)) [
    | inl equal ↦ rw equal (Settled-keep field _ _ h e refl refl (sym (append-nil _)) refl)
    | inr other ↦
        subst
          (λ t. Ends (if not t then resolve_string c field a v r else some (touch r)) (
            Settled field (string (settle (string_strategy P) c a v))
              (clash (string_strategy P) c field a v) r))
          (sym other) (string_resolves c field a v r h e other)
  ]

  pub report_string-Implements : Implements (string_strategy P) report_string
  unfolding report_string string_at
  report_string-Implements = record {
    first = λ i field v c r h e. Settled-noted i field _ _ r _ (
        subst
          (λ w.
            Ends (string_at w field v c (report_policy_index i r))
              (Settled field (string v) [] (report_policy_index i r)))
          (sym e) (Settled-store field _ (report_policy_index i r) (noted i r h)));
    next = λ i field a v c r h e. Settled-noted i field _ _ r _ (
        subst
          (λ w. Ends (string_at w field v c (report_policy_index i r)) (
            Settled field (string (settle (string_strategy P) c a v))
              (clash (string_strategy P) c field a v) (report_policy_index i r)))
          (sym e) (string_settles c field a v (report_policy_index i r) (noted i r h) e));
  }
