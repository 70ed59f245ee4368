-- ===== src/Manager/Apply.antt =====
-- `request_for` and `apply` of src/manager.rs.
pub mod Verdicts
pub mod Success
pub mod Metering
use policyai.Prelude.{
  ℕ, zero, suc, ◌+◌, ◌-◌, Text, text, Bool, true, false, Option, none, some, List, [], ◌∷◌, ◌++◌,
  length, if◌then◌else◌, ◌⊎◌, inl, inr,
}
use policyai.Json.{Platform, Value, value_get}
use policyai.Format.{decimal}
use policyai.PolicyType.{PolicyType, Policy}
use policyai.Errors.{
  PolicyError, ApplyError, policy, claudius, too_many_iterations, invalid_response,
}
use policyai.Report.{Report}
use policyai.ReportBuilder.{Schemas, ReportBuilder, initial, consume_ir, schema}
use policyai.ReportBuilder.Policies.{Added, add_policy}
use policyai.Usage.{
  Claudius, Request, Response, Client, Usage, new_usage, add_claudius_usage, increment_iterations,
  set_wall_clock_time,
}
use policyai.Manager.{Manager, sort, dedup, lists_eq, debug_numbers, explanation}

abbrev pub max_attempts : ℕ
max_attempts = 5

-- What surrounds a call of `apply`: the schemas and identifiers, the remote model, the clock, which
-- reads the time since the start after so many requests, and the texts of prompts/manager.md and
-- prompts/manager_suffix.md.
pub record Env {P : Platform} (C : Claudius P) : Type 0 where
  pub schemas : Schemas P
  pub uuid : ℕ → Text
  pub client : Client C
  pub elapsed : ℕ → C.Duration
  pub manager_md : Text
  pub manager_suffix_md : Text

-- What one answer leads to: a panic, an error, the report, or one more attempt with a request and
-- the text of the last error.
pub data Verdict {P : Platform} (C : Claudius P) : Type 0 where
  panicked : Verdict C
  failed : ApplyError P C.Error → Verdict C
  done : Report P → Verdict C
  again : Request C → Text → Verdict C

-- The result of `apply`, the usage as it leaves it, and the requests that were sent.
pub record Ran {P : Platform} (C : Claudius P) : Type 0 where
  pub verdict : Verdict C
  pub usage : Option (Usage C)
  pub calls : ℕ

mismatch_text : ℕ → List ℕ → List ℕ → Text
mismatch_text attempt empirical reported =
    text "Attempt "
    ++ (decimal attempt
        ++ (text "/"
            ++ (decimal max_attempts
                ++ (text ": Rule mismatch - empirically matched "
                    ++ (debug_numbers empirical
                        ++ (text " but reportedly matched " ++ debug_numbers reported))))))

push_all : (P : Platform) → List P.MessageParam → List P.MessageParam → List P.MessageParam
push_all P ms [] = ms
push_all P ms (n ∷ ns) = push_all P (P.push_or_merge ms n) ns

module _ {P : Platform} where
  unfoldable pub refused :
      Option (PolicyError P) → ReportBuilder P → PolicyError P ⊎ ReportBuilder P
  refused (some e) b = inl e
  refused none b = inr b

  abbrev pub then_build {ℓ} :
      {A : Type ℓ}
      → PolicyError P ⊎ ReportBuilder P
      → (ReportBuilder P → PolicyError P ⊎ A)
      → PolicyError P ⊎ A
  then_build (inl e) f = inl e
  then_build (inr b) f = f b

  -- the loop of `request_for`, which the first refused policy ends
  unfoldable pub build :
      Schemas P
      → (ℕ → Text)
      → List (Policy P)
      → ReportBuilder P
      → ℕ
      → PolicyError P ⊎ ReportBuilder P
  unfolding refused
  build S uuid [] b drawn = inr b
  build S uuid (p ∷ ps) b drawn =
      let added = add_policy S uuid b p drawn in
      then_build (refused added.error added.builder) (λ b'. build S uuid ps b' added.drawn)

module _ {P : Platform} {C : Claudius P} where
  -- the request for the builder
  unfoldable pub request : Env C → ReportBuilder P → Request C → Text → Request C
  unfolding push_all
  request env b template input =
      let defaults = P.user_message (
        text "<default>Unless specified otherwise, output "
        ++ (C.to_string b.default_return ++ text "</default>")) in
      let ms = push_all P (P.push_or_merge template.messages defaults) b.messages in
      let ms' = P.push_or_merge ms (P.user_message (text "<text>" ++ (input ++ text "</text>"))) in
      record template {
        system = some (C.system_text env.manager_md);
        messages = P.push_or_merge ms' (P.user_message env.manager_suffix_md);
        tool_choice = some (C.tool_choice (text "output_json"));
        tools = some (C.custom_tool (text "output_json") (text "output JSON") (schema b) ∷ []);
      }

  unfoldable pub request_for :
      Env C → Manager P → Request C → Text → PolicyError P ⊎ (ReportBuilder P × Request C)
  unfolding build request
  request_for env m template input =
      then_build (build env.schemas env.uuid m.policies (initial env.schemas) 0)
        (λ b. inr (b, request env b template input))

  -- the request for another attempt: the answer, and what is wrong with it
  unfoldable pub retry : Response C → Text → Text → Request C → Request C
  retry resp tool_id content req = record req {
    messages = P.push_or_merge (P.push_or_merge req.messages (C.assistant_message resp.content)) (
        C.tool_error_message tool_id
          (text "<error-message>" ++ (content ++ text "</error-message>")));
  }

  -- the report, against the rules that the model says it matched
  unfoldable pub compare_rules :
      ℕ → Request C → Response C → Text → List ℕ → Option (Report P) → Verdict C
  unfolding retry mismatch_text
  compare_rules attempt req resp tool_id reported0 none = panicked
  compare_rules attempt req resp tool_id reported0 (some report) =
      let empirical = dedup (sort report.rules_matched) in
      let reported = dedup (sort reported0) in
      if lists_eq empirical reported
      then done report
      else again (retry resp tool_id (explanation report.masks_by_index empirical reported) req)
          (mismatch_text attempt empirical reported)

  -- `None` at either step is a `continue`, which sends the same request again
  judge_numbers :
      ReportBuilder P
      → ℕ
      → Request C
      → Response C
      → Text
      → Text
      → Value P
      → Option (List ℕ)
      → Verdict C
  unfolding compare_rules
  judge_numbers b attempt req resp last tool_id ir none = again req last
  judge_numbers b attempt req resp last tool_id ir (some reported) =
      compare_rules attempt req resp tool_id reported (consume_ir b ir)

  judge_input :
      ReportBuilder P
      → ℕ
      → Request C
      → Response C
      → Text
      → Text
      → Value P
      → Option (Value P)
      → Verdict C
  unfolding judge_numbers
  judge_input b attempt req resp last tool_id ir none = again req last
  judge_input b attempt req resp last tool_id ir (some v) =
      judge_numbers b attempt req resp last tool_id ir (C.rule_numbers v)

  judge_block :
      ReportBuilder P → ℕ → Request C → Response C → Text → Option (Text × Value P) → Verdict C
  unfolding judge_input
  judge_block b attempt req resp last none = failed (
      invalid_response (text "Expected ToolUse content block")
        (text "The LLM should be using the output_json tool to provide structured output"))
  judge_block b attempt req resp last (some (tool_id, ir)) =
      judge_input b attempt req resp last tool_id ir (value_get ir (text "__rule_numbers__"))

  -- one answer
  unfoldable pub judge :
      ReportBuilder P → ℕ → Request C → Response C → Text → List C.Block → Verdict C
  unfolding judge_block
  judge b attempt req resp last (block ∷ []) =
      judge_block b attempt req resp last (C.tool_use block)
  judge b attempt req resp last blocks = failed (
      invalid_response (text "Expected exactly 1 content block, got " ++ decimal (length blocks))
        (text "Check that the LLM is configured correctly and the tool definition is valid"))

  on_usage : (Usage C → Usage C) → Option (Usage C) → Option (Usage C)
  on_usage f none = none
  on_usage f (some u) = some (f u)

  -- after an answer: the clock is read on success, and not on an error
  proceed :
      Env C
      → ℕ
      → Verdict C
      → Option (Usage C)
      → (Request C → Text → Option (Usage C) → Ran C)
      → Ran C
  unfolding on_usage
  proceed env calls panicked u next = record { verdict = panicked; usage = u; calls = calls }
  proceed env calls (failed e) u next = record { verdict = failed e; usage = u; calls = calls }
  proceed env calls (done r) u next = record {
    verdict = done r;
    usage = on_usage (set_wall_clock_time (env.elapsed calls)) u;
    calls = calls;
  }
  proceed env calls (again req last) u next = next req last u

  -- the answer to the request, or the error of the client
  answered :
      Env C
      → ReportBuilder P
      → ℕ
      → Request C
      → Text
      → Option (Usage C)
      → (Request C → Text → Option (Usage C) → Ran C)
      → C.Error ⊎ Response C
      → Ran C
  unfolding proceed on_usage
  answered env b made req last u next (inl e) = record {
    verdict = failed (claudius e);
    usage = u;
    calls = made + 1;
  }
  answered env b made req last u next (inr resp) =
      proceed env (made + 1) (judge b (made + 1) req resp last resp.content)
        (on_usage (λ s. increment_iterations (add_claudius_usage resp.usage s)) u) next

  -- `for attempt in 1..=max_attempts`, with the attempts that are left and the requests made
  unfoldable pub attempts :
      Env C → ReportBuilder P → ℕ → ℕ → Request C → Text → Option (Usage C) → Ran C
  unfolding answered
  attempts env b zero made req last u = record {
    verdict = failed (too_many_iterations max_attempts last);
    usage = on_usage (set_wall_clock_time (env.elapsed made)) u;
    calls = made;
  }
  attempts env b (suc left) made req last u =
      answered env b made req last u (attempts env b left (made + 1)) (env.client made req)

  start : Env C → Option (Usage C) → PolicyError P ⊎ (ReportBuilder P × Request C) → Ran C
  unfolding attempts on_usage
  start env u (inl e) = record { verdict = failed (policy e); usage = u; calls = 0 }
  start env u (inr (b, req)) = attempts env b max_attempts 0 req [] (on_usage (λ _. new_usage) u)

  unfoldable pub apply : Env C → Manager P → Request C → Text → Option (Usage C) → Ran C
  unfolding start request_for
  apply env m template input u = start env u (request_for env m template input)
