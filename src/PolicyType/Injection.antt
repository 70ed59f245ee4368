-- ===== src/PolicyType/Injection.antt =====
-- `PolicyType::with_semantic_injection` of src/policy_type.rs: the request to the model, and the JSON
-- that is taken out of its answer. The schema that the source builds first is not here: nothing uses
-- it. Indices count characters where the source counts bytes: a slice begins and ends at the same
-- characters.
pub mod Extraction
use policyai.Prelude.{
  ℕ, zero, suc, ◌+◌, ◌-◌, Text, text, Bool, true, false, Option, none, some, List, [], ◌∷◌, ◌++◌,
  leb, ◌==◌, if◌then◌else◌, ◌⊎◌, inl, inr,
}
use policyai.Json.{Platform, Value}
use policyai.Format.{starts_with}
use policyai.PolicyType.{PolicyType, Policy}

-- the fields of `MessageCreateParams` that are not `None`, less the constants `model` and `stream`
pub record InjectionRequest (P : Platform) : Type 0 where
  pub max_tokens : ℕ
  pub messages : List P.MessageParam
  pub system : Text
  pub thinking : ℕ

pub later : Option ℕ → Option ℕ
later none = none
later (some i) = some (suc i)

-- `find` with a text that is not empty
unfoldable pub find_text : Text → Text → Option ℕ
unfolding later starts_with
find_text pattern [] = none
find_text pattern (c ∷ s) = elim (starts_with pattern (c ∷ s)) [
  | true ↦ some 0
  | false ↦ later (find_text pattern s)
]

-- `find` with a character
unfoldable pub find_char : ℕ → Text → Option ℕ
unfolding later
find_char c [] = none
find_char c (d ∷ s) = if d == c then some 0 else later (find_char c s)

-- `rfind` with a character
unfoldable pub rfind_char : ℕ → Text → Option ℕ
rfind_char c [] = none
rfind_char c (d ∷ s) = elim (rfind_char c s) [
  | some i ↦ some (suc i)
  | none ↦ if d == c then some 0 else none
]

-- `s[n..]` and `s[..n]`, for indices in the text
unfoldable pub skip : ℕ → Text → Text
skip zero s = s
skip (suc n) [] = []
skip (suc n) (c ∷ s) = skip n s

unfoldable pub take : ℕ → Text → Text
take zero s = []
take (suc n) [] = []
take (suc n) (c ∷ s) = c ∷ take n s

-- `&s[first..=last]` for indices in the text, which panics if the end is before the beginning
unfoldable pub slice : ℕ → ℕ → Text → Option Text
unfolding skip take
slice first last s =
    if leb first (last + 1) then some (take (last + 1 - first) (skip first s)) else none

-- `ContentBlock::Text`, `serde_json::from_str` with its error, and `char::is_whitespace`. `send` is the
-- remote model.
module _ {P : Platform} {E Block : Type 0} (text_of : Block → Option Text)
    (from_str : Text → E ⊎ Value P) (is_whitespace : ℕ → Bool)
    (send : InjectionRequest P → E ⊎ List Block) (generate_semantic_injection : Text) where
  unfoldable trim_start : Text → Text
  trim_start [] = []
  trim_start (c ∷ s) = if is_whitespace c then trim_start s else c ∷ s

  unfoldable trim_end : Text → Text
  trim_end [] = []
  trim_end (c ∷ s) = elim (trim_end s) [
    | [] ↦ if is_whitespace c then [] else c ∷ []
    | d ∷ t ↦ c ∷ d ∷ t
  ]

  abbrev trim : Text → Text
  trim s = trim_end (trim_start s)

  -- after the opening fence
  in_fence : Text → Text → Option ℕ → Text
  unfolding take trim_start trim_end
  in_fence raw after none = trim raw
  in_fence raw after (some n) = trim (take n after)

  braced : Text → Option ℕ → Option ℕ → Option Text
  unfolding slice trim_start trim_end
  braced raw (some first) (some last) = slice first last raw
  braced raw _ _ = some (trim raw)

  json_at : Text → Option ℕ → Option Text
  unfolding in_fence braced find_text find_char rfind_char skip
  json_at raw (some n) =
      let after = skip (n + 7) raw in some (in_fence raw after (find_text (text "```") after))
  json_at raw none = braced raw (find_char b'{' raw) (rfind_char b'}' raw)

  -- the JSON in the answer; `none` stands for a panic
  unfoldable pub json_content : Text → Option Text
  unfolding json_at find_text
  json_content raw = json_at raw (find_text (text "```json") raw)

  unfoldable pub text_blocks : List Block → Text
  text_blocks [] = []
  text_blocks (b ∷ bs) = elim (text_of b) [ none ↦ text_blocks bs | some t ↦ t ++ text_blocks bs ]

  unfoldable pub injection_request : Text → InjectionRequest P
  injection_request injection = record {
    max_tokens = 2048;
    messages = P.user_message (text "<ask>" ++ (injection ++ text "</ask>")) ∷ [];
    system = generate_semantic_injection;
    thinking = 1024;
  }

  policy_of : PolicyType P → Text → E ⊎ Value P → E ⊎ Policy P
  policy_of t injection (inl e) = inl e
  policy_of t injection (inr action) =
      inr (record { type = t; prompt = injection; action = action })

  parsed : PolicyType P → Text → Option Text → Option (E ⊎ Policy P)
  unfolding policy_of
  parsed t injection none = none
  parsed t injection (some json) = some (policy_of t injection (from_str json))

  answered : PolicyType P → Text → E ⊎ List Block → Option (E ⊎ Policy P)
  unfolding parsed json_content text_blocks
  answered t injection (inl e) = some (inl e)
  answered t injection (inr content) = parsed t injection (json_content (text_blocks content))

  unfoldable pub with_semantic_injection : PolicyType P → Text → Option (E ⊎ Policy P)
  unfolding answered injection_request
  with_semantic_injection t injection = answered t injection (send (injection_request injection))
