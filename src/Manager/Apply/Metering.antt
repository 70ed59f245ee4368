-- ===== src/Manager/Apply/Metering.antt =====
-- What `apply` leaves in the usage that the caller passes.
use policyai.Prelude.{
  ℕ, zero, suc, ◌+◌, ◌≤◌, Text, ◌≡◌, refl, ◌∙◌, Option, none, some, List, [], ◌∷◌, length, ◌⊎◌, inl,
  inr, arith,
}
use policyai.Json.{Platform}
use policyai.Errors.{PolicyError, policy, claudius, conflict, too_many_iterations, invalid_response}
use policyai.ReportBuilder.{ReportBuilder, initial}
use policyai.ReportBuilder.Policies.Coherence.{IsCoherent, initial-IsCoherent}
use policyai.Usage.{
  Claudius, Request, Response, Usage, new_usage, add_claudius_usage, increment_iterations,
  set_wall_clock_time,
}
use policyai.Manager.{Manager}
use policyai.Manager.Apply.{
  max_attempts, Env, Verdict, panicked, failed, done, again, Ran, then_build, build, request,
  request_for, on_usage, proceed, answered, attempts, start, apply,
}
use policyai.Manager.Apply.Verdicts.{Kept, judge-Kept}
use policyai.Manager.Apply.Success.{Built, Built-build}

module _ {P : Platform} {C : Claudius P} where
  -- the iterations against the requests: one less is possible where the client failed
  abbrev pub Answered : Verdict C → ℕ → ℕ → Type 0
  Answered (failed (claudius _)) iterations calls = (iterations ≤ calls) × (calls ≤ iterations + 1)
  Answered (failed _) iterations calls = iterations ≡ calls
  Answered (done _) iterations calls = iterations ≡ calls
  Answered (again _ _) iterations calls = iterations ≡ calls
  Answered panicked iterations calls = iterations ≡ calls

  -- the tokens of the answers, one after the other, on top of what there was
  abbrev pub charged : Option C.Tokens → List (Response C) → Option C.Tokens
  charged o [] = o
  charged none (resp ∷ resps) = charged (some resp.usage) resps
  charged (some t) (resp ∷ resps) = charged (some (C.add_tokens t resp.usage)) resps

  -- what is left of the clock: it is read where a report is returned and after the last attempt
  abbrev pub Clocked : Env C → Verdict C → ℕ → C.Duration → Type 0
  Clocked env (done _) calls d = d ≡ env.elapsed calls
  Clocked env (failed (too_many_iterations _ _)) calls d = d ≡ env.elapsed calls
  Clocked env (failed _) calls d = d ≡ C.no_time
  Clocked env (again _ _) calls d = d ≡ C.no_time
  Clocked env panicked calls d = d ≡ C.no_time

  -- The client gave these answers to as many requests in turn, from the n-th on.
  abbrev pub Given : Env C → ℕ → List (Response C) → Type 0
  Given env n [] = Unit
  Given env n (resp ∷ resps) =
      ((req : Request C) × (env.client n req ≡ inr resp)) × Given env (n + 1) resps

  -- the usage after the answers to the requests after `made` others, from the tokens there were
  pub record Tallied (env : Env C) (made : ℕ) (tokens : Option C.Tokens) (s : Usage C)
      : Type 0 where
    pub answers : List (Response C)
    pub given : Given env made answers
    pub counted : s.iterations ≡ made + length answers
    pub summed : s.claudius_usage ≡ charged tokens answers

  abbrev pub Metered : Env C → ℕ → Option C.Tokens → Ran C → Type 0
  Metered env made tokens ran =
      (s : Usage C) × (ran.usage ≡ some s)
      × Answered ran.verdict s.iterations ran.calls
      × Clocked env ran.verdict ran.calls s.wall_clock_time
      × Tallied env made tokens s

  charged-cons :
      (resp : Response C) (o : Option C.Tokens) (resps : List (Response C))
      → charged (some (elim o [ none ↦ resp.usage | some t ↦ C.add_tokens t resp.usage ])) resps
        ≡ charged o (resp ∷ resps)
  charged-cons resp none resps = refl
  charged-cons resp (some t) resps = refl

  charged-add :
      (resp : Response C) (s : Usage C) (resps : List (Response C))
      → charged (add_claudius_usage resp.usage s).claudius_usage resps
        ≡ charged s.claudius_usage (resp ∷ resps)
  unfolding add_claudius_usage
  charged-add resp s resps = charged-cons resp s.claudius_usage resps

  Metered-later :
      (env : Env C) (made : ℕ) (req : Request C) (resp : Response C) (s : Usage C) (ran : Ran C)
      → env.client made req ≡ inr resp
      → Metered env (made + 1) (add_claudius_usage resp.usage s).claudius_usage ran
      → Metered env made s.claudius_usage ran
  Metered-later env made req resp s ran c (t, u, a, d, l) = (
    t,
    u,
    a,
    d,
    record {
      answers = resp ∷ l.answers;
      given = ((req, c), l.given);
      counted = omega (arith, l.counted);
      summed = l.summed ∙ charged-add resp s l.answers;
    },
  )

  -- no answer after these
  quiet :
      (env : Env C) (made : ℕ) (s t : Usage C)
      → s.iterations ≡ made
      → t.iterations ≡ s.iterations
      → t.claudius_usage ≡ s.claudius_usage
      → Tallied env made s.claudius_usage t
  quiet env made s t h i u = record {
    answers = [];
    given = tt;
    counted = omega (arith, h, i);
    summed = u;
  }

  module _ (env : Env C) (b : ReportBuilder P) (h : IsCoherent b) where
    Metered-proceed :
        (calls : ℕ) (w : Verdict C) (s : Usage C)
        (next : Request C → Text → Option (Usage C) → Ran C)
        → Kept env b calls w
        → s.iterations ≡ calls
        → s.wall_clock_time ≡ C.no_time
        → ((req : Request C) (last : Text)
            → Metered env calls s.claudius_usage (next req last (some s)))
        → Metered env calls s.claudius_usage (proceed env calls w (some s) next)
    unfolding proceed on_usage set_wall_clock_time
    Metered-proceed calls panicked s next k e d f = absurd k
    Metered-proceed calls (failed (too_many_iterations _ _)) s next k e d f = absurd k
    Metered-proceed calls (failed (claudius _)) s next k e d f =
        (s, refl, (omega arith, omega arith), d, quiet env calls s s e refl refl)
    Metered-proceed calls (failed (policy _)) s next k e d f =
        (s, refl, e, d, quiet env calls s s e refl refl)
    Metered-proceed calls (failed (conflict _)) s next k e d f =
        (s, refl, e, d, quiet env calls s s e refl refl)
    Metered-proceed calls (failed (invalid_response _ _)) s next k e d f =
        (s, refl, e, d, quiet env calls s s e refl refl)
    Metered-proceed calls (done r) s next k e d f =
        let t = set_wall_clock_time (env.elapsed calls) s in
        (t, refl, e, refl, quiet env calls s t e refl refl)
    Metered-proceed calls (again req last) s next k e d f = f req last

    Metered-answered :
        (made : ℕ) (req : Request C) (last : Text) (s : Usage C)
        (next : Request C → Text → Option (Usage C) → Ran C) (reply : C.Error ⊎ Response C)
        → env.client made req ≡ reply
        → s.iterations ≡ made
        → s.wall_clock_time ≡ C.no_time
        → ((req' : Request C) (last' : Text) (t : Usage C)
            → t.iterations ≡ made + 1
            → t.wall_clock_time ≡ C.no_time
            → Metered env (made + 1) t.claudius_usage (next req' last' (some t)))
        → Metered env made s.claudius_usage (answered env b made req last (some s) next reply)
    unfolding answered on_usage increment_iterations add_claudius_usage
    Metered-answered made req last s next (inl e) c i d f =
        (s, refl, (omega (arith, i), omega (arith, i)), d, quiet env made s s i refl refl)
    Metered-answered made req last s next (inr resp) c i d f =
        let t = increment_iterations (add_claudius_usage resp.usage s) in
        Metered-later env made req resp s _ c (
          Metered-proceed (made + 1) _ t next (judge-Kept env b h made req last resp c)
            (omega (arith, i)) d (λ req' last'. f req' last' t (omega (arith, i)) d))

    Metered-attempts :
        (left made : ℕ) (req : Request C) (last : Text) (s : Usage C)
        → s.iterations ≡ made
        → s.wall_clock_time ≡ C.no_time
        → Metered env made s.claudius_usage (attempts env b left made req last (some s))
    unfolding attempts on_usage set_wall_clock_time
    Metered-attempts zero made req last s i d =
        let t = set_wall_clock_time (env.elapsed made) s in
        (t, refl, i, refl, quiet env made s t i refl refl)
    Metered-attempts (suc left) made req last s i d =
        Metered-answered made req last s (attempts env b left (made + 1)) _ refl i d
          (λ req' last' t e k. Metered-attempts left (made + 1) req' last' t e k)

  -- by what the builder makes of the policies
  abbrev pub Charged : Env C → Usage C → PolicyError P ⊎ ReportBuilder P → Ran C → Type 0
  Charged env u (inl e) ran = ran.usage ≡ some u
  Charged env u (inr b) ran = Metered env 0 none ran

  Charged-start :
      (env : Env C) (template : Request C) (input : Text) (u : Usage C)
      (o : PolicyError P ⊎ ReportBuilder P)
      → Built o
      → Charged env u o
          (start env (some u) (then_build o (λ b. inr (b, request env b template input))))
  unfolding start on_usage
  Charged-start env template input u (inl e) h = refl
  Charged-start env template input u (inr b) h =
      Metered-attempts env b h max_attempts 0 _ _ new_usage refl refl

  -- When the caller passes a usage: if a policy is refused, `apply` leaves it as it was. Otherwise nothing
  -- of it is left: its tokens are the sum of those of the client's answers to the requests in turn, none if
  -- there was no answer; its iterations are the number of these answers, which is the number of
  -- requests, or possibly one less where the client failed; and its time is the clock's after the last
  -- request where a report is returned or the attempts are used up, and zero at any other error.
  pub apply-Charged :
      (env : Env C) (m : Manager P) (template : Request C) (input : Text) (u : Usage C)
      → Charged env u
          (build env.schemas env.uuid m.policies (initial env.schemas) 0)
          (apply env m template input (some u))
  unfolding apply request_for
  apply-Charged env m template input u = Charged-start env template input u _ (
      Built-build env.schemas env.uuid m.policies (initial env.schemas) 0
        (initial-IsCoherent env.schemas))
