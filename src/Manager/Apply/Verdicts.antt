-- ===== src/Manager/Apply/Verdicts.antt =====
-- What one answer of the client leads to in `apply`.
use policyai.Prelude.{
  ℕ, ◌+◌, Text, text, ◌≡◌, refl, sym, ap, ◌∙◌, true, Option, none, some, List, [], ◌∷◌, inl, inr,
  Bool-cases,
}
use policyai.Json.{Platform, Value, value_get}
use policyai.Errors.{too_many_iterations}
use policyai.Report.{Report}
use policyai.Report.Values.Invariant.{Ends}
use policyai.ReportBuilder.{ReportBuilder, consume_ir}
use policyai.ReportBuilder.Policies.Coherence.{IsCoherent}
use policyai.ReportBuilder.Consume.{Consumed, consume_ir-Consumed}
use policyai.Usage.{Claudius, Request, Response}
use policyai.Manager.{sort, dedup, lists_eq, has}
use policyai.Manager.Sorting.{has-dedup-sort, lists_eq→eq}
use policyai.Manager.Apply.{
  Env, Verdict, panicked, failed, done, again, compare_rules, judge_numbers, judge_input,
  judge_block, judge,
}

-- The value is the input of the tool call that is all of the client's answer to the last request of so
-- many.
pub record Answers {P : Platform} {C : Claudius P} (env : Env C) (calls : ℕ) (ir : Value P)
    : Type 0 where
  pub attempt : ℕ
  pub last_request : attempt + 1 ≡ calls
  pub sent : Request C
  pub response : Response C
  pub answer : env.client attempt sent ≡ inr response
  pub block : C.Block
  pub content : response.content ≡ block ∷ []
  pub tool_id : Text
  pub tool : C.tool_use block ≡ some (tool_id, ir)

-- The report is what the builder makes of the answer, whose reported rule numbers are, as a set, the
-- rules that the report found.
pub record Agreed {P : Platform} {C : Claudius P} (env : Env C) (b : ReportBuilder P) (calls : ℕ)
    (r : Report P) : Type 0 where
  pub ir : Value P
  pub answers : Answers env calls ir
  pub reported_value : Value P
  pub reported : List ℕ
  pub consumed : consume_ir b ir ≡ some r
  pub found : value_get ir (text "__rule_numbers__") ≡ some reported_value
  pub parsed : C.rule_numbers reported_value ≡ some reported
  pub same_rules : (i : ℕ) → has r.rules_matched i ≡ has reported i

same_set :
    (ms ns : List ℕ)
    → lists_eq (dedup (sort ms)) (dedup (sort ns)) ≡ true
    → (i : ℕ) → has ms i ≡ has ns i
same_set ms ns e i =
    sym (has-dedup-sort ms i) ∙ ap (λ l. has l i) (lists_eq→eq _ _ e) ∙ has-dedup-sort ns i

module _ {P : Platform} {C : Claudius P} (env : Env C) where
  -- what one answer may lead to, after so many requests
  abbrev pub Kept : ReportBuilder P → ℕ → Verdict C → Type 0
  Kept b calls panicked = ⊥
  Kept b calls (failed (too_many_iterations n _)) = ⊥
  Kept b calls (failed _) = Unit
  Kept b calls (done r) = Agreed env b calls r
  Kept b calls (again _ _) = Unit

  module _ (b : ReportBuilder P) (h : IsCoherent b) where
    Kept-compare :
        (n : ℕ) (req : Request C) (resp : Response C) (tool_id : Text) (ir v : Value P)
        (reported : List ℕ)
        → Answers env n ir
        → value_get ir (text "__rule_numbers__") ≡ some v
        → C.rule_numbers v ≡ some reported
        → (o : Option (Report P)) → consume_ir b ir ≡ o
        → Ends o (Consumed b ir)
        → Kept b n (compare_rules n req resp tool_id reported o)
    unfolding compare_rules
    Kept-compare n req resp tool_id ir v reported a ev en none eo ends = ends
    Kept-compare n req resp tool_id ir v reported a ev en (some r) eo ends =
        elim (Bool-cases (lists_eq (dedup (sort r.rules_matched)) (dedup (sort reported)))) [
          | inl same ↦ rw same (record {
            ir = ir;
            answers = a;
            reported_value = v;
            reported = reported;
            consumed = eo;
            found = ev;
            parsed = en;
            same_rules = same_set r.rules_matched reported same;
          })
          | inr other ↦ rw other tt
        ]

    Kept-numbers :
        (n : ℕ) (req : Request C) (resp : Response C) (last tool_id : Text) (ir v : Value P)
        → Answers env n ir
        → value_get ir (text "__rule_numbers__") ≡ some v
        → (o : Option (List ℕ)) → C.rule_numbers v ≡ o
        → Kept b n (judge_numbers b n req resp last tool_id ir o)
    unfolding judge_numbers
    Kept-numbers n req resp last tool_id ir v a ev none en = tt
    Kept-numbers n req resp last tool_id ir v a ev (some reported) en =
        Kept-compare n req resp tool_id ir v reported a ev en _ refl
          (consume_ir-Consumed b ir h.defaults h.defaults_are)

    Kept-input :
        (n : ℕ) (req : Request C) (resp : Response C) (last tool_id : Text) (ir : Value P)
        (o : Option (Value P))
        → Answers env n ir
        → value_get ir (text "__rule_numbers__") ≡ o
        → Kept b n (judge_input b n req resp last tool_id ir o)
    unfolding judge_input
    Kept-input n req resp last tool_id ir none a e = tt
    Kept-input n req resp last tool_id ir (some v) a e =
        Kept-numbers n req resp last tool_id ir v a e _ refl

    Kept-block :
        (n : ℕ) (req : Request C) (resp : Response C) (last : Text) (o : Option (Text × Value P))
        → ((tool_id : Text) (ir : Value P) → o ≡ some (tool_id, ir) → Answers env n ir)
        → Kept b n (judge_block b n req resp last o)
    unfolding judge_block
    Kept-block n req resp last none f = tt
    Kept-block n req resp last (some (tool_id, ir)) f =
        Kept-input n req resp last tool_id ir _ (f tool_id ir refl) refl

    Kept-judge :
        (n : ℕ) (req : Request C) (resp : Response C) (last : Text) (blocks : List C.Block)
        → ((block : C.Block) (tool_id : Text) (ir : Value P)
            → blocks ≡ block ∷ []
            → C.tool_use block ≡ some (tool_id, ir)
            → Answers env n ir)
        → Kept b n (judge b n req resp last blocks)
    unfolding judge
    Kept-judge n req resp last (block ∷ []) f =
        Kept-block n req resp last (C.tool_use block) (λ tool_id ir e. f block tool_id ir refl e)
    Kept-judge n req resp last [] f = tt
    Kept-judge n req resp last (block ∷ block' ∷ blocks) f = tt

    -- The verdict on the client's answer to the request after `made` others.
    pub judge-Kept :
        (made : ℕ) (req : Request C) (last : Text) (resp : Response C)
        → env.client made req ≡ inr resp
        → Kept b (made + 1) (judge b (made + 1) req resp last resp.content)
    judge-Kept made req last resp c =
        Kept-judge (made + 1) req resp last resp.content (λ block tool_id ir e t. record {
          attempt = made;
          last_request = refl;
          sent = req;
          response = resp;
          answer = c;
          block = block;
          content = e;
          tool_id = tool_id;
          tool = t;
        })
