-- ===== src/Examples/Surveys.antt =====
-- The theorems on src/data.rs at concrete inputs: a model that says yes at every second request.
use policyai.Prelude.{
  ℕ, ◌%◌, ◌==◌, Text, ◌≡◌, refl, Bool, true, ◌⊎◌, inr, leb, arith, zero, suc, ◌<◌, ltb, inl, text,
  if◌then◌else◌,
}
use policyai.Data.{Answer, policy_applies, policy_does_not_apply}
use policyai.Data.Votes.{
  ballot, yes_votes, policy_applies_lem, policy_does_not_apply-majority, policy_does_not_apply-half,
}

abbrev votes : ℕ → Bool
votes i = i % 2 == 0

abbrev unknown : Text → Text
unknown t = t

abbrev send : ℕ → Text ⊎ Answer
send i = inr (ballot (votes i))

-- the same model, which fails from the fourth request on
abbrev tired : ℕ → Text ⊎ Answer
tired i = if ltb i 3 then send i else inl (text "overloaded")

tired-votes : (i : ℕ) → i < 5 → yes_votes votes 0 i < 2 → tired i ≡ inr (ballot (votes i))
tired-votes zero lt h = refl
tired-votes (suc zero) lt h = refl
tired-votes (suc (suc zero)) lt h = refl
tired-votes (suc (suc (suc i))) lt h = absurd (omega (arith, h))

policy_applies_lem_example : policy_applies unknown tired 2 5 ≡ inr (leb 2 (yes_votes votes 0 5))
policy_applies_lem_example = policy_applies_lem unknown tired votes 2 5 tired-votes

policy_does_not_apply-majority_example :
    policy_does_not_apply unknown send 3 5 ≡ inr (leb (yes_votes votes 0 5) 2)
policy_does_not_apply-majority_example =
    policy_does_not_apply-majority unknown send votes 3 5 (λ i lt h. refl) (omega arith)

policy_does_not_apply-half_example : policy_does_not_apply unknown send 2 5 ≡ inr true
policy_does_not_apply-half_example =
    policy_does_not_apply-half unknown send votes 2 5 (λ i lt h. refl) (omega arith)
