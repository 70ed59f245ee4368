-- ===== src/Parser/RoundTrip.antt =====
-- `parse` of src/parser.rs on what `Display` prints of a policy type.
use policyai.Prelude.{
  ℕ, zero, suc, ◌<◌, ◌≡◌, ◌≢◌, refl, Text, List, [], ◌∷◌, map, length, arith, All,
}
use policyai.Json.{Platform}
use policyai.Field
use policyai.Field.{Field}
use policyai.PolicyType.{PolicyType}
use policyai.Display.{display_type}
use policyai.Parser.{Lexical, Token, left_brace, right_brace, ok}
use policyai.Parser.Lexer.{start, tokenize}
use policyai.Parser.Grammar.{
  new, end_of, tail, advance, starts, at_end, same_token, expect, parse_identifier,
}
use policyai.Parser.Fields.{join, parse, parse_fields, parse_name_parts, parse_policy_type}
use policyai.Parser.Printed.{IsUnicode, IsIdentifier, IsPrintable, IsFresh, IsDisplayable, Lexes}
use policyai.Parser.Printed.Lengths.{length-parts_tokens, length-fields_tokens}
use policyai.Parser.Printed.Tokens.{fields_tokens, parts_tokens, type_tokens}
use policyai.Parser.Printed.Reading.{ReadsAs, parse_field-suffix_tokens}
use policyai.Parser.Printed.Displayed.{Lexes-display_type}

module _ {P : Platform} (L : Lexical P) where
  -- With fuel for each part, the name is read up to the brace.
  parse_name_parts-parts_tokens :
      (fuel : ℕ) (ss : List Text) (us : List (Token P))
      → length ss < fuel
      → ReadsAs L (parse_name_parts L fuel) (parts_tokens ss (left_brace ∷ us)) ss (left_brace ∷ us)
  unfolding ReadsAs parse_name_parts parts_tokens parse_identifier starts same_token advance
  parse_name_parts-parts_tokens zero ss us h ps e = absurd (omega arith)
  parse_name_parts-parts_tokens (suc fuel) [] us h ps e = (_, refl)
  parse_name_parts-parts_tokens (suc fuel) (s ∷ ss) us h ps e =
      let (qs, k) = parse_name_parts-parts_tokens fuel ss us (omega arith) (tail (tail ps)) e in
      (qs, rw k)

  -- With fuel for each field, the fields are read up to the brace.
  parse_fields-fields_tokens :
      (fuel : ℕ) (seen : List Text) (fs : List (Field P)) (us : List (Token P))
      → length fs < fuel
      → All (IsPrintable L) fs
      → IsFresh L seen fs
      → ReadsAs L
          (parse_fields L fuel seen)
          (fields_tokens fs (right_brace ∷ us))
          fs
          (right_brace ∷ us)
  unfolding ReadsAs parse_fields fields_tokens IsFresh starts at_end same_token advance
  parse_fields-fields_tokens zero seen fs us l h k ps e = absurd (omega arith)
  parse_fields-fields_tokens (suc fuel) seen [] us l h k ps e = (_, refl)
  parse_fields-fields_tokens (suc fuel) seen (f ∷ fs) us l h k ps e =
      let (qs, m) = parse_field-suffix_tokens L f (fields_tokens fs (right_brace ∷ us)) h.0 ps e in
      let (rs, n) =
        parse_fields-fields_tokens fuel (Field.name f ∷ seen) fs us (omega arith) h.1 k.1 (tail qs)
          e in
      (rs, rw (m, k.0, n))

  parse_policy_type-type_tokens :
      (t : PolicyType P) (part : Text) (parts : List Text)
      → t.name ≡ join (part ∷ parts)
      → All (IsPrintable L) t.fields
      → IsFresh L [] t.fields
      → ReadsAs L (parse_policy_type L) (type_tokens part parts t.fields) t []
  unfolding ReadsAs parse_policy_type type_tokens expect parse_identifier same_token advance
  parse_policy_type-type_tokens t part parts h k fresh ps e =
      let us = fields_tokens t.fields (right_brace ∷ []) in
      let (qs, m) =
        parse_name_parts-parts_tokens (suc (length (parts_tokens parts (left_brace ∷ us)))) parts us
          (omega (arith, length-parts_tokens parts (left_brace ∷ us))) (tail (tail ps)) e in
      let (rs, n) =
        parse_fields-fields_tokens (suc (length us)) [] t.fields []
          (omega (arith, length-fields_tokens t.fields (right_brace ∷ []))) k fresh (tail qs) e in
      (tail rs, rw (m, n, h))

  parse-lexed :
      (input : Text) (us : List (Token P)) (t : PolicyType P)
      → Lexes L us input
      → ReadsAs L (parse_policy_type L) us t []
      → parse L input ≡ ok t
  unfolding Lexes ReadsAs parse tokenize new
  parse-lexed input us t h k =
      let (ts, run, tokens) = h (suc (length input)) start (omega arith) in
      let (qs, m) = k (map (λ t. t.1) ts) (end_of (map (λ t. t.1) ts)) in rw (run, tokens, m)

module _ {P : Platform} {L : Lexical P} where
  displayed :
      (t : PolicyType P) (parts : List Text)
      → IsUnicode L
      → All (IsIdentifier L) parts
      → parts ≢ []
      → t.name ≡ join parts
      → All (IsPrintable L) t.fields
      → IsFresh L [] t.fields
      → parse L (display_type L t) ≡ ok t
  displayed t [] U h n e k fresh = absurd (n refl)
  displayed t (part ∷ parts) U h n e k fresh =
      parse-lexed L (display_type L t) (type_tokens part parts t.fields) t
        (Lexes-display_type U t part parts h e k)
        (parse_policy_type-type_tokens L t part parts e k fresh)

  -- `parse` reads what `Display` prints of a policy type as that policy type, where the tests on
  -- characters behave as documented and the policy type is displayable: its name is identifiers joined
  -- by `::`, its fields have distinct names that are identifiers and no keywords, its strings have
  -- only characters that `{:?}` prints as they stand or after a backslash, an enumeration has a
  -- value, and a default number is printed as a numeral that stands for it.
  pub parse-display_type :
      (t : PolicyType P) → IsUnicode L → IsDisplayable L t → parse L (display_type L t) ≡ ok t
  parse-display_type t U d =
      displayed t d.parts U d.parts_identifiers d.parts_not_empty d.name_join d.fields_printable
        d.fields_fresh
