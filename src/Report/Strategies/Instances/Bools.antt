-- ===== src/Report/Strategies/Instances/Bools.antt =====
-- The reports of booleans implement their strategy.
use policyai.Report.Strategies.Instances.{bool_strategy, Settled-store, Settled-keep, Settled-noted}
use policyai.Prelude.{
  Text, ◌≡◌, refl, sym, Bool, false, not, some, [], append-nil, if◌then◌else◌, inl, inr, Bool-cases,
}
use mathlib.Core.Path.{subst}
use policyai.Json.{Platform, bool}
use policyai.Json.Equality.{bool_eq}
use policyai.Field.{OnConflict}
use policyai.Report.{Report, report_policy_index}
use policyai.Report.Values.{touch, resolve_bool, bool_at, report_bool}
use policyai.Report.Values.Invariant.{Ends, IsWellFormed, reported, noted}
use policyai.Report.Strategies.{settle, clash, Settled, Implements}

module _ {P : Platform} where
  bool_resolves :
      (c : OnConflict) (field : Text) (a v : Bool) (r : Report P)
      → IsWellFormed r
      → reported r field ≡ some (bool a)
      → bool_eq a v ≡ false
      → Ends (resolve_bool c field a v r) (
          Settled field
            (bool (settle (bool_strategy P) c a v))
            (clash (bool_strategy P) c field a v)
            r)
  unfolding resolve_bool touch
  bool_resolves OnConflict.default field a v r h e other =
      rw other (Settled-keep field _ _ h e refl refl (sym (append-nil _)) refl)
  bool_resolves OnConflict.agreement field a v r h e other =
      rw other (Settled-keep field _ _ h e refl refl refl refl)
  bool_resolves OnConflict.largest_value field a v r h e other = elim (Bool-cases (v)) [
    | inl more ↦ rw (other, more) (Settled-store field _ r h)
    | inr less ↦ rw (other, less) (Settled-keep field _ _ h e refl refl (sym (append-nil _)) refl)
  ]

  bool_settles :
      (c : OnConflict) (field : Text) (a v : Bool) (r : Report P)
      → IsWellFormed r
      → reported r field ≡ some (bool a)
      → Ends (bool_at (some (bool a)) field v c r) (
          Settled field
            (bool (settle (bool_strategy P) c a v))
            (clash (bool_strategy P) c field a v)
            r)
  unfolding bool_at touch
  bool_settles c field a v r h e = elim (Bool-cases (bool_eq a v)) [
    | inl equal ↦ rw equal (Settled-keep field _ _ h e refl refl (sym (append-nil _)) refl)
    | inr other ↦
        subst
          (λ t. Ends (if not t then resolve_bool c field a v r else some (touch r)) (
            Settled field (bool (settle (bool_strategy P) c a v))
              (clash (bool_strategy P) c field a v) r))
          (sym other) (bool_resolves c field a v r h e other)
  ]

  pub report_bool-Implements : Implements (bool_strategy P) report_bool
  unfolding report_bool bool_at
  report_bool-Implements = record {
    first = λ i field v c r h e. Settled-noted i field _ _ r _ (
        subst
          (λ w.
            Ends (bool_at w field v c (report_policy_index i r))
              (Settled field (bool v) [] (report_policy_index i r)))
          (sym e) (Settled-store field _ (report_policy_index i r) (noted i r h)));
    next = λ i field a v c r h e. Settled-noted i field _ _ r _ (
        subst
          (λ w. Ends (bool_at w field v c (report_policy_index i r)) (
            Settled field (bool (settle (bool_strategy P) c a v))
              (clash (bool_strategy P) c field a v) (report_policy_index i r)))
          (sym e) (bool_settles c field a v (report_policy_index i r) (noted i r h) e));
  }
