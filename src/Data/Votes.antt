-- ===== src/Data/Votes.antt =====
-- What the test decides when the model answers yes or no.
use policyai.Prelude.{
  ℕ, zero, suc, ◌+◌, ◌-◌, ◌≤◌, ◌<◌, Text, text, text_eq, ◌≡◌, refl, ap, ◌∙◌, Bool, true, false,
  some, ltb, leb, if◌then◌else◌, ◌⊎◌, inl, inr, Bool-cases, arith,
}
use policyai.Data.{
  Answer, counted, counting, apply_policy_fractional, decide, policy_applies, policy_does_not_apply,
}

-- the answer of a model that says yes or no
abbrev pub ballot : Bool → Answer
ballot said_yes = record {
  is_stop_sequence = true;
  stop_sequence = some (if said_yes then text "yes" else text "no");
}

-- how many of so many votes, from one on, are yes
abbrev pub yes_votes : (ℕ → Bool) → ℕ → ℕ → ℕ
yes_votes votes total zero = 0
yes_votes votes total (suc left) =
    let rest = yes_votes votes (total + 1) left in if votes total then rest + 1 else rest

-- one vote more
yes_votes-later :
    (votes : ℕ → Bool) (total left : ℕ)
    → yes_votes votes total (left + 1)
      ≡ yes_votes votes total left + (if votes (total + left) then 1 else 0)
yes_votes-later votes total zero = ground arith
yes_votes-later votes total (suc left) = ground (arith, yes_votes-later votes (total + 1) left)

abbrev pub smaller : ℕ → ℕ → ℕ
smaller a b = if leb a b then a else b

module _ {E : Type 0} (unknown : Text → E) (send : ℕ → E ⊎ Answer) where
  counted-ballot :
      (said_yes : Bool) (success : ℕ) (next : ℕ → E ⊎ ℕ)
      → counted unknown send (inr (ballot said_yes)) success next
        ≡ next (if said_yes then success + 1 else success)
  unfolding counted text text_eq
  counted-ballot true success next = refl
  counted-ballot false success next = refl

module _ {E : Type 0} (unknown : Text → E) (send : ℕ → E ⊎ Answer) (votes : ℕ → Bool) (k n : ℕ)
    (voted : (i : ℕ) → i < n → yes_votes votes 0 i < k → send i ≡ inr (ballot (votes i))) where
  counting_lem :
      (left total success : ℕ)
      → total + left ≡ n
      → success ≡ yes_votes votes 0 total
      → success ≤ k
      → counting unknown send k left total success
        ≡ inr (smaller k (success + yes_votes votes total left))
  unfolding counting
  counting_lem zero total success e s le = ap inr (ground arith)
  counting_lem (suc left) total success e s le = elim (Bool-cases (ltb success k)) [
    | inl below ↦
        rw
          (
            below,
            voted total (omega arith) (ground arith),
            counted-ballot unknown send (votes total),
          )
          (elim (Bool-cases (votes total)) [
            | inl agreed ↦ rw agreed (
                counting_lem left (total + 1) (success + 1) (omega arith)
                  (ground (arith, yes_votes-later votes 0 total)) (ground arith)
                ∙ ap (λ y. inr (smaller k y)) (omega arith))
            | inr refused ↦ rw refused (
                counting_lem left (total + 1) success (omega arith)
                  (ground (arith, yes_votes-later votes 0 total)) le)
          ])
    | inr closed ↦ rw closed (ap inr (ground arith))
  ]

  apply_policy_fractional_lem :
      apply_policy_fractional unknown send k n ≡ inr (smaller k (yes_votes votes 0 n))
  unfolding apply_policy_fractional
  apply_policy_fractional_lem =
      counting_lem n 0 0 (omega arith) refl (omega arith)
      ∙ ap (λ y. inr (smaller k y)) (omega arith)

  -- Let there be a vote for each of the first `n` requests, and let the model answer a request with its
  -- vote, yes or no, as long as fewer than `k` votes before it are yes, and in any way or with an error
  -- after that. Then `policy_applies` ends without an error, and is true exactly if at least `k` of the
  -- `n` votes are yes: it stops asking as soon as `k` of them are.
  pub policy_applies_lem : policy_applies unknown send k n ≡ inr (leb k (yes_votes votes 0 n))
  unfolding policy_applies decide
  policy_applies_lem = rw apply_policy_fractional_lem (ap inr (ground arith))

  -- Let the model answer each of the first `n` requests with its vote, yes or no, as long as fewer than
  -- `k` votes before it are yes, and let `k` be more than half of `n`. Then `policy_does_not_apply` ends
  -- without an error, and is true exactly if at most `n - k` of the `n` votes are yes, 0 if `k` is above
  -- `n`.
  pub policy_does_not_apply-majority :
      n < k + k → policy_does_not_apply unknown send k n ≡ inr (leb (yes_votes votes 0 n) (n - k))
  unfolding policy_does_not_apply decide
  policy_does_not_apply-majority m = rw apply_policy_fractional_lem (ap inr (ground arith))

  -- Let the model answer each of the first `n` requests with its vote, yes or no, as long as fewer than
  -- `k` votes before it are yes, and let `k` be at most half of `n`. Then `policy_does_not_apply` is true,
  -- also where every vote is yes: it stops asking at `k` yeses.
  pub policy_does_not_apply-half : k + k ≤ n → policy_does_not_apply unknown send k n ≡ inr true
  unfolding policy_does_not_apply decide
  policy_does_not_apply-half m = rw apply_policy_fractional_lem (ap inr (ground arith))
