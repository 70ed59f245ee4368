-- ===== src/Manager/Apply/Success.antt =====
-- What `apply` promises of its result.
use policyai.Prelude.{
  ℕ, zero, suc, ◌+◌, ◌≤◌, Text, ◌≡◌, refl, Option, none, some, List, [], ◌∷◌, arith, inl, inr, ◌⊎◌,
}
use policyai.Json.{Platform}
use policyai.PolicyType.{Policy}
use policyai.Manager.Apply.{build, then_build, refused, request, request_for, start, apply}
use policyai.ReportBuilder.Policies.{add_policy}
use policyai.Errors.{PolicyError, policy, claudius, conflict, too_many_iterations, invalid_response}
use policyai.ReportBuilder.{Schemas, ReportBuilder, initial}
use policyai.ReportBuilder.Policies.Coherence.{
  IsCoherent, add_policy-IsCoherent, initial-IsCoherent,
}
use policyai.Usage.{Claudius, Request, Response, Usage}
use policyai.Manager.{Manager}
use policyai.Manager.Apply.Verdicts.{Agreed, Kept, judge-Kept}
use policyai.Manager.Apply.{
  max_attempts, Env, Verdict, panicked, failed, done, again, Ran, proceed, answered, attempts,
}

module _ {P : Platform} {C : Claudius P} (env : Env C) where
  -- How a call of `apply` may end, after at most `limit` requests: with a report that agrees with the
  -- last answer, or with an error, and with `TooManyIterations` only after all the requests.
  abbrev pub Ended : ReportBuilder P → ℕ → Verdict C → ℕ → Type 0
  Ended b limit panicked calls = ⊥
  Ended b limit (failed (too_many_iterations n _)) calls = (n ≡ limit) × (calls ≡ limit)
  Ended b limit (failed _) calls = calls ≤ limit
  Ended b limit (done r) calls = Agreed env b calls r × (calls ≤ limit)
  Ended b limit (again _ _) calls = ⊥

  abbrev pub Finished : ReportBuilder P → ℕ → Ran C → Type 0
  Finished b limit ran = Ended b limit ran.verdict ran.calls

  module _ (b : ReportBuilder P) (h : IsCoherent b) where
    Outcome-proceed :
        (limit made : ℕ) (w : Verdict C) (u : Option (Usage C))
        (next : Request C → Text → Option (Usage C) → Ran C)
        → made + 1 ≤ limit
        → Kept env b (made + 1) w
        → ((req : Request C) (last : Text) (v : Option (Usage C))
            → Finished b limit (next req last v))
        → Finished b limit (proceed env (made + 1) w u next)
    unfolding proceed
    Outcome-proceed limit made panicked u next m k f = absurd k
    Outcome-proceed limit made (failed (too_many_iterations _ _)) u next m k f = absurd k
    Outcome-proceed limit made (failed (policy _)) u next m k f = omega arith
    Outcome-proceed limit made (failed (claudius _)) u next m k f = omega arith
    Outcome-proceed limit made (failed (conflict _)) u next m k f = omega arith
    Outcome-proceed limit made (failed (invalid_response _ _)) u next m k f = omega arith
    Outcome-proceed limit made (done r) u next m k f = (k, omega arith)
    Outcome-proceed limit made (again req last) u next m k f = f req last u

    Finished-answered :
        (limit made : ℕ) (req : Request C) (last : Text) (u : Option (Usage C))
        (next : Request C → Text → Option (Usage C) → Ran C) (reply : C.Error ⊎ Response C)
        → env.client made req ≡ reply
        → made + 1 ≤ limit
        → ((req' : Request C) (last' : Text) (v : Option (Usage C))
            → Finished b limit (next req' last' v))
        → Finished b limit (answered env b made req last u next reply)
    unfolding answered
    Finished-answered limit made req last u next (inl e) c m f = m
    Finished-answered limit made req last u next (inr resp) c m f =
        Outcome-proceed limit made _ _ next m (judge-Kept env b h made req last resp c) f

    Finished-attempts :
        (left made : ℕ) (req : Request C) (last : Text) (u : Option (Usage C))
        → made + left ≡ max_attempts
        → Finished b max_attempts (attempts env b left made req last u)
    unfolding attempts
    Finished-attempts zero made req last u e = (refl, omega arith)
    Finished-attempts (suc left) made req last u e =
        Finished-answered max_attempts made req last u (attempts env b left (made + 1)) _ refl
          (omega arith)
          (λ req' last' v. Finished-attempts left (made + 1) req' last' v (omega arith))

module _ {P : Platform} where
  abbrev pub Built : PolicyError P ⊎ ReportBuilder P → Type 0
  Built (inl e) = Unit
  Built (inr b) = IsCoherent b

  Built-refused :
      (o : Option (PolicyError P)) (b : ReportBuilder P)
      (f : ReportBuilder P → PolicyError P ⊎ ReportBuilder P)
      → IsCoherent b
      → ((b' : ReportBuilder P) → IsCoherent b' → Built (f b'))
      → Built (then_build (refused o b) f)
  unfolding refused
  Built-refused none b f h k = k b h
  Built-refused (some e) b f h k = tt

  pub Built-build :
      (S : Schemas P) (uuid : ℕ → Text) (ps : List (Policy P)) (b : ReportBuilder P) (drawn : ℕ)
      → IsCoherent b
      → Built (build S uuid ps b drawn)
  unfolding build
  Built-build S uuid [] b drawn h = h
  Built-build S uuid (p ∷ ps) b drawn h =
      Built-refused _ _ (λ b'. build S uuid ps b' (add_policy S uuid b p drawn).drawn)
        (add_policy-IsCoherent S uuid b p drawn h) (λ b' h'. Built-build S uuid ps b' _ h')

module _ {P : Platform} {C : Claudius P} where
  -- `apply`, by what the builder makes of the policies
  abbrev pub Honoured : Env C → PolicyError P ⊎ ReportBuilder P → Ran C → Type 0
  Honoured env (inl e) ran = (ran.verdict ≡ failed (policy e)) × (ran.calls ≡ 0)
  Honoured env (inr b) ran = Finished env b max_attempts ran

  Honoured-start :
      (env : Env C) (m : Manager P) (template : Request C) (input : Text) (u : Option (Usage C))
      (o : PolicyError P ⊎ ReportBuilder P)
      → Built o
      → Honoured env o (start env u (then_build o (λ b. inr (b, request env b template input))))
  unfolding start
  Honoured-start env m template input u (inl e) h = (refl, refl)
  Honoured-start env m template input u (inr b) h =
      Finished-attempts env b h max_attempts 0 _ _ _ (omega arith)

  -- A policy that is refused ends `apply` with its error, before any request. Otherwise `apply` sends
  -- five requests at most and never panics. It returns a report only if the client answered the last
  -- request with one block, a tool call, the builder makes the report of the input of that call, and the
  -- rule numbers in that input are, as a set, the rules that the report matched. It fails with
  -- `TooManyIterations` only after five requests.
  pub apply-Honoured :
      (env : Env C) (m : Manager P) (template : Request C) (input : Text) (u : Option (Usage C))
      → Honoured env
          (build env.schemas env.uuid m.policies (initial env.schemas) 0)
          (apply env m template input u)
  unfolding apply request_for
  apply-Honoured env m template input u = Honoured-start env m template input u _ (
      Built-build env.schemas env.uuid m.policies (initial env.schemas) 0
        (initial-IsCoherent env.schemas))
