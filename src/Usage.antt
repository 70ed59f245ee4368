-- ===== src/Usage.antt =====
-- src/usage.rs, and what the program takes from claudius: requests, answers and their parts.
use policyai.Prelude.{ℕ, ◌+◌, Text, Option, none, some, List, ◌⊎◌}
use policyai.Json.{Platform, Value}

-- The types of claudius and of the clock, with the operations that the sources call.
pub record Claudius (P : Platform) : Type 1 where
  pub Error : Type 0
  -- `claudius::Usage`, and its `+`
  pub Tokens : Type 0
  pub add_tokens : Tokens → Tokens → Tokens
  pub Duration : Type 0
  pub no_time : Duration
  -- the fields of `MessageCreateParams` that the manager leaves as the template has them
  pub Template : Type 0
  pub System : Type 0
  pub system_text : Text → System
  pub ToolChoice : Type 0
  pub tool_choice : Text → ToolChoice
  pub Tool : Type 0
  -- name, description and input schema
  pub custom_tool : Text → Text → Value P → Tool
  pub Block : Type 0
  -- `ContentBlock::ToolUse`: the identifier and the input
  pub tool_use : Block → Option (Text × Value P)
  pub assistant_message : List Block → P.MessageParam
  -- a message of the user with one tool result that is an error: the identifier and the text
  pub tool_error_message : Text → Text → P.MessageParam
  -- `serde_json::to_string`, and `from_value::<Vec<usize>>`
  pub to_string : Value P → Text
  pub rule_numbers : Value P → Option (List ℕ)

pub record Request {P : Platform} (C : Claudius P) : Type 0 where
  pub template : C.Template
  pub messages : List P.MessageParam
  pub system : Option C.System
  pub tool_choice : Option C.ToolChoice
  pub tools : Option (List C.Tool)

pub record Response {P : Platform} (C : Claudius P) : Type 0 where
  pub usage : C.Tokens
  pub content : List C.Block

-- The remote model: what it answers to the n-th request, counted from 0.
abbrev pub Client : {P : Platform} → Claudius P → Type 0
Client C = ℕ → Request C → C.Error ⊎ Response C

pub record Usage {P : Platform} (C : Claudius P) : Type 0 where
  pub claudius_usage : Option C.Tokens
  pub wall_clock_time : C.Duration
  pub iterations : ℕ

module _ {P : Platform} {C : Claudius P} where
  -- `Usage::new`
  abbrev pub new_usage : Usage C
  new_usage = record { claudius_usage = none; wall_clock_time = C.no_time; iterations = 0 }

  unfoldable pub add_claudius_usage : C.Tokens → Usage C → Usage C
  add_claudius_usage u s = record s {
    claudius_usage =
        some (elim s.claudius_usage [ none ↦ u | some existing ↦ C.add_tokens existing u ]);
  }

  unfoldable pub increment_iterations : Usage C → Usage C
  increment_iterations s = record s { iterations = s.iterations + 1 }

  unfoldable pub set_wall_clock_time : C.Duration → Usage C → Usage C
  set_wall_clock_time d s = record s { wall_clock_time = d }
