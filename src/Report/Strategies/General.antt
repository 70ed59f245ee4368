-- ===== src/Report/Strategies/General.antt =====
-- What `Agreement` and `Default` come to for every strategy.
use policyai.Prelude.{
  none, some, ℕ, Text, ◌≡◌, ◌↔◌, refl, sym, ap, ◌∙◌, true, List, [], ◌∷◌, ◌++◌, append-nil, All,
  inl, inr, Bool-cases, Option,
}
use mathlib.Core.List.{append_cancel_left}
use policyai.Json.{Platform}
use policyai.Field.{OnConflict}
use policyai.Report.{Report}
use policyai.Report.Values.Invariant.{Ends, Ends-imp, IsWellFormed, reported}
use policyai.Report.Strategies.{
  Strategy, settle_all, clash_all, Settled, values, Implements, report_in_turn,
  report_in_turn-Settled,
}

module _ {P : Platform} {T : Type 0} (s : Strategy P T) where
  pub settle_all-default : (a : T) (vs : List T) → settle_all s OnConflict.default a vs ≡ a
  settle_all-default a [] = refl
  settle_all-default a (v ∷ vs) = elim (Bool-cases (s.same a v)) [
    | inl e ↦ rw e (settle_all-default a vs)
    | inr e ↦ rw e (settle_all-default a vs)
  ]

  pub clash_all-default :
      (field : Text) (a : T) (vs : List T) → clash_all s OnConflict.default field a vs ≡ []
  clash_all-default field a [] = refl
  clash_all-default field a (v ∷ vs) = elim (Bool-cases (s.same a v)) [
    | inl e ↦ rw e (clash_all-default field a vs)
    | inr e ↦ rw e (clash_all-default field a vs)
  ]

  pub settle_all-agreement : (a : T) (vs : List T) → settle_all s OnConflict.agreement a vs ≡ a
  settle_all-agreement a [] = refl
  settle_all-agreement a (v ∷ vs) = elim (Bool-cases (s.same a v)) [
    | inl e ↦ rw e (settle_all-agreement a vs)
    | inr e ↦ rw e (settle_all-agreement a vs)
  ]

  pub clash_all-agreement :
      (field : Text) (a : T) (vs : List T)
      → (clash_all s OnConflict.agreement field a vs ≡ []) ↔ All (λ v. s.same a v ≡ true) vs
  clash_all-agreement field a [] = (λ _. tt, λ _. refl)
  clash_all-agreement field a (v ∷ vs) = elim (Bool-cases (s.same a v)) [
    | inl e ↦ rw e (
      (λ h. (refl, (clash_all-agreement field a vs).0 h)),
      (λ h. (clash_all-agreement field a vs).1 h.1),
    )
    | inr e ↦ rw e ((λ h. cc), (λ h. cc (h.0)))
  ]

-- Adding nothing to a list is adding the empty list.
append_cancel {ℓ} : {A : Type ℓ} (xs ys : List A) → (xs ++ ys ≡ xs) ↔ (ys ≡ [])
append_cancel xs ys =
    ((λ h. append_cancel_left xs ys [] (h ∙ sym (append-nil xs))), (λ e. rw e (append-nil xs)))

module _ {P : Platform} where
  -- `Agreement`, for any operation that implements a strategy
  pub report_agreement :
      {T : Type 0} (s : Strategy P T)
      (report : ℕ → Text → T → OnConflict → Report P → Option (Report P))
      (imp : Implements s report) (field : Text) (i : ℕ) (v : T) (ivs : List (ℕ × T)) (r : Report P)
      → IsWellFormed r
      → reported r field ≡ none
      → Ends (report_in_turn report field OnConflict.agreement ((i, v) ∷ ivs) r) (λ r'.
        (reported r' field ≡ some (s.into v))
        × ((r'.conflicts ≡ r.conflicts) ↔ All (λ w. s.same v w ≡ true) (values ivs))
        × (r'.errors ≡ r.errors))
  report_agreement s report imp field i v ivs r h e =
      Ends-imp
        {Q = Settled field (s.into (settle_all s OnConflict.agreement v (values ivs)))
          (clash_all s OnConflict.agreement field v (values ivs)) r}
        _
        (λ r' t.
          let quiet =
            append_cancel r.conflicts (clash_all s OnConflict.agreement field v (values ivs)) in
          let agree = clash_all-agreement s field v (values ivs) in
          (
            t.value ∙ ap (λ x. some (s.into x)) (settle_all-agreement s v (values ivs)),
            (
              (λ q. agree.0 (quiet.0 (sym t.conflicts ∙ q))),
              (λ a. t.conflicts ∙ quiet.1 (agree.1 a)),
            ),
            t.errors,
          ))
        (report_in_turn-Settled s report imp field OnConflict.agreement i v ivs r h e)

  -- `Default`, for any operation that implements a strategy
  pub report_default_strategy :
      {T : Type 0} (s : Strategy P T)
      (report : ℕ → Text → T → OnConflict → Report P → Option (Report P))
      (imp : Implements s report) (field : Text) (i : ℕ) (v : T) (ivs : List (ℕ × T)) (r : Report P)
      → IsWellFormed r
      → reported r field ≡ none
      → Ends
          (report_in_turn report field OnConflict.default ((i, v) ∷ ivs) r)
          (Settled field (s.into v) [] r)
  report_default_strategy s report imp field i v ivs r h e =
      Ends-imp
        {Q = Settled field (s.into (settle_all s OnConflict.default v (values ivs)))
          (clash_all s OnConflict.default field v (values ivs)) r}
        _
        (λ r' t. record {
          wf = t.wf;
          value = t.value ∙ ap (λ x. some (s.into x)) (settle_all-default s v (values ivs));
          conflicts =
              t.conflicts ∙ ap (λ l. r.conflicts ++ l) (clash_all-default s field v (values ivs));
          errors = t.errors;
        })
        (report_in_turn-Settled s report imp field OnConflict.default i v ivs r h e)
