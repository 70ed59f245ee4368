-- ===== src/PolicyType/Injection/Extraction.antt =====
-- What `with_semantic_injection` of src/policy_type.rs takes out of an answer.
use policyai.Prelude.{
  ℕ, suc, ◌+◌, ◌-◌, ◌≡◌, refl, Text, text, Bool, true, false, Option, none, some, List, [], ◌∷◌,
  ◌++◌, leb, ◌==◌, ◌⊎◌, inr, All, length, length-append, append_assoc, sym, arith,
}
use policyai.Json.{Platform, Value}
use policyai.PolicyType.{PolicyType}
use policyai.PolicyType.Injection.{
  InjectionRequest, later, find_text, find_char, rfind_char, skip, take, slice, json_content,
  json_at, braced, text_blocks, injection_request, with_semantic_injection, answered, parsed,
  policy_of,
}

find_char-append :
    (c : ℕ) (pre s : Text)
    → All (λ d. (d == c) ≡ false) pre
    → find_char c (pre ++ c ∷ s) ≡ some (length pre)
unfolding find_char later
find_char-append c [] s h = ground arith
find_char-append c (d ∷ pre) s h = rw (h.0, find_char-append c pre s h.1)

rfind_char-none :
    (c : ℕ) (post : Text) → All (λ d. (d == c) ≡ false) post → rfind_char c post ≡ none
unfolding rfind_char
rfind_char-none c [] h = refl
rfind_char-none c (d ∷ post) h = rw (rfind_char-none c post h.1, h.0)

rfind_char-append :
    (c : ℕ) (pre post : Text)
    → All (λ d. (d == c) ≡ false) post
    → rfind_char c (pre ++ c ∷ post) ≡ some (length pre)
unfolding rfind_char
rfind_char-append c [] post h = rw (rfind_char-none c post h) (ground arith)
rfind_char-append c (d ∷ pre) post h = rw (rfind_char-append c pre post h)

skip-append : (pre s : Text) → skip (length pre) (pre ++ s) ≡ s
unfolding skip
skip-append [] s = refl
skip-append (c ∷ pre) s = skip-append pre s

take-append : (pre s : Text) → take (length pre) (pre ++ s) ≡ pre
unfolding take
take-append [] s = refl
take-append (c ∷ pre) s = rw (take-append pre s)

-- a JSON object as a text: what stands between the braces, with them
abbrev pub object_text : Text → Text
object_text body = b'{' ∷ (body ++ b'}' ∷ [])

-- an object with the text before and after it
abbrev pub surrounded : Text → Text → Text → Text
surrounded pre body post = pre ++ b'{' ∷ (body ++ b'}' ∷ post)

last_brace :
    (pre body post : Text)
    → All (λ c. (c == b'}') ≡ false) post
    → rfind_char b'}' (surrounded pre body post) ≡ some (length pre + suc (length body))
last_brace pre body post h = rw (
  sym (append_assoc pre (b'{' ∷ body) (b'}' ∷ post)),
  rfind_char-append b'}' (pre ++ b'{' ∷ body) post h,
  length-append pre (b'{' ∷ body),
)

slice-object :
    (pre body post : Text)
    → slice (length pre) (length pre + suc (length body)) (surrounded pre body post)
      ≡ some (object_text body)
unfolding slice
slice-object pre body post =
    let l : leb (length pre) (length pre + suc (length body) + 1) ≡ true = ground arith in
    let n : length pre + suc (length body) + 1 - length pre ≡ length (object_text body) =
      omega (arith, length-append body (b'}' ∷ [])) in
    rw (
      l,
      n,
      skip-append pre (b'{' ∷ (body ++ b'}' ∷ post)),
      sym (append_assoc body (b'}' ∷ []) post),
      take-append (object_text body) post,
    )

module _ {P : Platform} {E Block : Type 0} (text_of : Block → Option Text)
    (from_str : Text → E ⊎ Value P) (is_whitespace : ℕ → Bool)
    (send : InjectionRequest P → E ⊎ List Block) (generate_semantic_injection : Text) where
  json_content-object :
      (pre body post : Text)
      → find_text (text "```json") (surrounded pre body post) ≡ none
      → All (λ c. (c == b'{') ≡ false) pre
      → All (λ c. (c == b'}') ≡ false) post
      → json_content text_of from_str is_whitespace send generate_semantic_injection
          (surrounded pre body post)
        ≡ some (object_text body)
  unfolding json_content json_at braced
  json_content-object pre body post f h k =
      rw (f, find_char-append b'{' pre (body ++ b'}' ∷ post) h, last_brace pre body post k)
        (slice-object pre body post)

  -- Where the model answers with a JSON object in text that has no opening brace before it, no closing
  -- brace after it and no opening fence, the policy has the policy type, the injection as its
  -- prompt, and the object as its action: the text around it does not matter.
  pub with_semantic_injection-object :
      (t : PolicyType P) (injection : Text) (content : List Block) (pre body post : Text)
      (action : Value P)
      → send (
          injection_request text_of from_str is_whitespace send generate_semantic_injection
            injection)
        ≡ inr content
      → text_blocks text_of from_str is_whitespace send generate_semantic_injection content
        ≡ surrounded pre body post
      → find_text (text "```json") (surrounded pre body post) ≡ none
      → All (λ c. (c == b'{') ≡ false) pre
      → All (λ c. (c == b'}') ≡ false) post
      → from_str (object_text body) ≡ inr action
      → with_semantic_injection text_of from_str is_whitespace send generate_semantic_injection t
          injection
        ≡ some (inr (record { type = t; prompt = injection; action = action }))
  unfolding with_semantic_injection answered parsed policy_of
  with_semantic_injection-object t injection content pre body post action s b f h k a =
      rw (s, b, json_content-object pre body post f h k, a)
