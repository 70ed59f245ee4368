-- ===== src/Data.antt =====
-- The statistical test of src/data.rs: how often the model says that a semantic injection applies.
pub mod Votes
pub mod Points
use policyai.Prelude.{
  ℕ, zero, suc, ◌+◌, ◌-◌, Text, text, text_eq, Bool, true, false, not, Option, none, some, ltb, leb,
  if◌then◌else◌, ◌⊎◌, inl, inr,
}

-- What the sources read of an answer: whether its stop reason is a stop sequence, and which one.
pub record Answer : Type 0 where
  pub is_stop_sequence : Bool
  pub stop_sequence : Option Text

-- `unknown` is `claudius::Error::unknown`. `send` is the remote model: what it answers when the request,
-- which is the same every time, is sent to it for the n-th time, counted from 0.
module _ {E : Type 0} (unknown : Text → E) (send : ℕ → E ⊎ Answer) where
  counted_word : Option Text → ℕ → (ℕ → E ⊎ ℕ) → E ⊎ ℕ
  counted_word none success next = inl (unknown (text "expected stop sequence"))
  counted_word (some word) success next =
      if text_eq word (text "yes")
      then next (success + 1)
      else if text_eq word (text "no")
      then next success
      else inl (unknown (text "expected yes/no stop sequence"))

  -- one answer, and what goes on with the new count
  unfoldable pub counted : E ⊎ Answer → ℕ → (ℕ → E ⊎ ℕ) → E ⊎ ℕ
  unfolding counted_word
  counted (inl e) success next = inl e
  counted (inr a) success next =
      if not a.is_stop_sequence
      then inl (unknown (text "did not get a stop sequence"))
      else counted_word a.stop_sequence success next

  -- `while success < k && total < n`, where `left` is `n - total`
  unfoldable pub counting : ℕ → ℕ → ℕ → ℕ → E ⊎ ℕ
  unfolding counted
  counting k zero total success = inr success
  counting k (suc left) total success =
      if ltb success k
      then counted (send total) success (λ s. counting k left (total + 1) s)
      else inr success

  unfoldable pub apply_policy_fractional : ℕ → ℕ → E ⊎ ℕ
  unfolding counting
  apply_policy_fractional k n = counting k n 0 0

  unfoldable pub decide : (ℕ → Bool) → E ⊎ ℕ → E ⊎ Bool
  decide f (inl e) = inl e
  decide f (inr success) = inr (f success)

  unfoldable pub policy_applies : ℕ → ℕ → E ⊎ Bool
  unfolding apply_policy_fractional decide
  policy_applies k n = decide (λ s. leb k s) (apply_policy_fractional k n)

  -- `n.saturating_sub(k)` is the subtraction of ℕ.
  unfoldable pub policy_does_not_apply : ℕ → ℕ → E ⊎ Bool
  unfolding apply_policy_fractional decide
  policy_does_not_apply k n = decide (λ s. leb s (n - k)) (apply_policy_fractional k n)
