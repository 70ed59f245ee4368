-- ===== src/Report/Strategies/Instances/Numbers.antt =====
-- The reports of numbers implement their strategy.
use policyai.Report.Strategies.Instances.{
  number_strategy, Settled-store, Settled-keep, Settled-noted,
}
use policyai.Prelude.{
  Text, ◌≡◌, refl, sym, false, not, some, [], append-nil, if◌then◌else◌, inl, inr, Bool-cases,
}
use mathlib.Core.Path.{subst}
use policyai.Json.{Platform, number}
use policyai.Numbers.{number_is_equal, number_less_than}
use policyai.Field.{OnConflict}
use policyai.Report.{Report, report_policy_index}
use policyai.Report.Values.{touch, resolve_number, number_at, report_number}
use policyai.Report.Values.Invariant.{Ends, IsWellFormed, reported, noted}
use policyai.Report.Strategies.{settle, clash, Settled, Implements}

module _ {P : Platform} where
  number_resolves :
      (c : OnConflict) (field : Text) (a v : P.Number) (r : Report P)
      → IsWellFormed r
      → reported r field ≡ some (number a)
      → number_is_equal P a v ≡ false
      → Ends (resolve_number c field a v r) (
          Settled field
            (number (settle (number_strategy P) c a v))
            (clash (number_strategy P) c field a v)
            r)
  unfolding resolve_number touch
  number_resolves OnConflict.default field a v r h e other =
      rw other (Settled-keep field _ _ h e refl refl (sym (append-nil _)) refl)
  number_resolves OnConflict.agreement field a v r h e other =
      rw other (Settled-keep field _ _ h e refl refl refl refl)
  number_resolves OnConflict.largest_value field a v r h e other =
      elim (Bool-cases (number_less_than P a v)) [
        | inl more ↦ rw (other, more) (Settled-store field _ r h)
        | inr less ↦ rw (other, less) (Settled-keep field _ _ h e refl refl refl refl)
      ]

  number_settles :
      (c : OnConflict) (field : Text) (a v : P.Number) (r : Report P)
      → IsWellFormed r
      → reported r field ≡ some (number a)
      → Ends (number_at (some (number a)) field v c r) (
          Settled field
            (number (settle (number_strategy P) c a v))
            (clash (number_strategy P) c field a v)
            r)
  unfolding number_at touch
  number_settles c field a v r h e = elim (Bool-cases (number_is_equal P a v)) [
    | inl equal ↦ rw equal (Settled-keep field _ _ h e refl refl (sym (append-nil _)) refl)
    | inr other ↦
        subst
          (λ t. Ends (if not t then resolve_number c field a v r else some (touch r)) (
            Settled field (number (settle (number_strategy P) c a v))
              (clash (number_strategy P) c field a v) r))
          (sym other) (number_resolves c field a v r h e other)
  ]

  pub report_number-Implements : Implements (number_strategy P) report_number
  unfolding report_number number_at
  report_number-Implements = record {
    first = λ i field v c r h e. Settled-noted i field _ _ r _ (
        subst
          (λ w.
            Ends (number_at w field v c (report_policy_index i r))
              (Settled field (number v) [] (report_policy_index i r)))
          (sym e) (Settled-store field _ (report_policy_index i r) (noted i r h)));
    next = λ i field a v c r h e. Settled-noted i field _ _ r _ (
        subst
          (λ w. Ends (number_at w field v c (report_policy_index i r)) (
            Settled field (number (settle (number_strategy P) c a v))
              (clash (number_strategy P) c field a v) (report_policy_index i r)))
          (sym e) (number_settles c field a v (report_policy_index i r) (noted i r h) e));
  }
