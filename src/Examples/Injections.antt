-- ===== src/Examples/Injections.antt =====
-- The theorem on `with_semantic_injection` of src/policy_type.rs at a concrete answer, and a run that
-- ends in a panic.
use policyai.Prelude.{
  ℕ, Text, text, text_eq, ◌≡◌, refl, Bool, true, Option, none, some, List, [], ◌∷◌, ◌⊎◌, inl, inr,
  ◌==◌, if◌then◌else◌,
}
use policyai.Json.{Value, bool, object, entry, end}
use policyai.Format.{starts_with}
use policyai.PolicyType.{PolicyType}
use policyai.PolicyType.Injection.{
  InjectionRequest, text_blocks, find_text, with_semantic_injection,
}
use policyai.PolicyType.Injection.Extraction.{with_semantic_injection-object}
use policyai.Examples.{naturals}

abbrev no_fields : PolicyType naturals
no_fields = record { name = text "t"; fields = [] }

abbrev some_text : Text → Option Text
some_text t = some t

abbrev urgent_action : Value naturals
urgent_action = object (entry (text "urgent") (bool true) end)

abbrev one_object : Text → Text ⊎ Value naturals
one_object s = if text_eq s (text "{\"urgent\": true}") then inr urgent_action else inl s

abbrev is_space : ℕ → Bool
is_space c = c == b' '

abbrev chatty : InjectionRequest naturals → Text ⊎ List Text
chatty r = inr (text "Here it is: {" ∷ text "\"urgent\": true} as asked" ∷ [])

with_semantic_injection-object_example :
    with_semantic_injection some_text one_object is_space chatty
      (text "system")
      no_fields
      (text "mark as urgent")
    ≡ some
        (inr (record { type = no_fields; prompt = text "mark as urgent"; action = urgent_action }))
unfolding text text_blocks find_text starts_with text_eq
with_semantic_injection-object_example =
    with_semantic_injection-object some_text one_object is_space chatty (text "system") no_fields
      (text "mark as urgent") (text "Here it is: {" ∷ text "\"urgent\": true} as asked" ∷ [])
      (text "Here it is: ") (text "\"urgent\": true") (text " as asked") urgent_action refl refl
      refl
      (
        refl,
        (refl, (refl, (refl, (refl, (refl, (refl, (refl, (refl, (refl, (refl, (refl, tt))))))))))),
      )
      (refl, (refl, (refl, (refl, (refl, (refl, (refl, (refl, (refl, tt))))))))) refl

-- An answer with braces the wrong way round makes a slice that ends before it begins.
abbrev backwards : InjectionRequest naturals → Text ⊎ List Text
backwards r = inr (text "} {" ∷ [])

braces_run :
    with_semantic_injection some_text one_object is_space backwards
      (text "system")
      no_fields
      (text "anything")
    ≡ none
unfolding with_semantic_injection text starts_with
braces_run = refl
