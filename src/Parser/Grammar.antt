-- ===== src/Parser/Grammar.antt =====
-- The parser of src/parser.rs, from tokens to policy types. What is left of the tokens and of their
-- positions, in two lists, stands for the whole vector and the index in it.
pub mod Total
pub mod Conflicts
use policyai.Prelude.{
  ℕ, zero, suc, ◌+◌, Text, text, text_eq, contains, Bool, true, false, not, ◌&&◌, ◌||◌, Option,
  none, some, List, [], ◌∷◌, ◌++◌, map, if◌then◌else◌, length,
}
use policyai.Json.{Platform}
use policyai.Field
use policyai.Field.{Field, OnConflict}
use policyai.PolicyType.{PolicyType}
use policyai.Parser.{
  Lexical, Position, unexpected_token, unexpected_end_of_input, duplicate_field_name, custom, Token,
  type, identifier, string_literal, number_literal, left_brace, right_brace, left_bracket,
  right_bracket, colon, comma, equals, at_sign, double_colon, agreement, sticky, wins, last,
  highest, largest, Parsed, ok, err, out_of_fuel, ◌>>=◌, display_token,
}
use policyai.Parser.Lexer.{start, tokenize}

-- the tokens that are left, their positions, and the position past the last token of all
pub record Parser (P : Platform) : Type 0 where
  pub tokens : List (Token P)
  pub positions : List Position
  pub end_position : Position

-- the position one column after the last one, or the start if there is none
unfoldable pub end_of : List Position → Position
end_of [] = start
end_of (p ∷ []) = record p { column = p.column + 1 }
end_of (p ∷ q ∷ ps) = end_of (q ∷ ps)

position_of : List Position → Position → Position
position_of [] p = p
position_of (q ∷ qs) p = q

abbrev pub tail {ℓ} : {A : Type ℓ} → List A → List A
tail [] = []
tail (a ∷ l) = l

abbrev pub head? {ℓ} : {A : Type ℓ} → List A → Option A
head? [] = none
head? (a ∷ l) = some a

module _ {P : Platform} where
  -- `Parser::new`
  unfoldable pub new : List (Token P × Position) → Parser P
  unfolding end_of
  new tokens = record {
    tokens = map (λ t. t.0) tokens;
    positions = map (λ t. t.1) tokens;
    end_position = end_of (map (λ t. t.1) tokens);
  }

  unfoldable pub current_position : Parser P → Position
  unfolding position_of
  current_position s = position_of s.positions s.end_position

  abbrev pub peek : Parser P → Option (Token P)
  peek s = head? s.tokens

  -- the parser after `advance`
  unfoldable pub advance : Parser P → Parser P
  advance s = record s { tokens = tail s.tokens; positions = tail s.positions }

  -- are the tokens equal? (a text by its characters, a number as `f64`)
  unfoldable pub same_token : Token P → Token P → Bool
  same_token Token.bool Token.bool = true
  same_token Token.string Token.string = true
  same_token Token.number Token.number = true
  same_token Token.true Token.true = true
  same_token Token.false Token.false = true
  same_token (identifier s) (identifier t) = text_eq s t
  same_token (string_literal s) (string_literal t) = text_eq s t
  same_token (number_literal a) (number_literal b) = P.f64_eq a b
  same_token left_bracket left_bracket = true
  same_token left_brace left_brace = true
  same_token right_brace right_brace = true
  same_token right_bracket right_bracket = true
  same_token colon colon = true
  same_token comma comma = true
  same_token equals equals = true
  same_token at_sign at_sign = true
  same_token double_colon double_colon = true
  same_token type type = true
  same_token agreement agreement = true
  same_token sticky sticky = true
  same_token wins wins = true
  same_token last last = true
  same_token highest highest = true
  same_token largest largest = true
  same_token _ _ = false

  -- `self.peek() == Some(&token)`
  abbrev pub found : Option (Token P) → Token P → Bool
  found none t = false
  found (some u) t = same_token u t

  unfoldable pub starts : Token P → Parser P → Bool
  unfolding same_token
  starts t s = found (peek s) t

  unfoldable pub at_end : Parser P → Bool
  at_end s = elim (peek s) [ none ↦ true | some _ ↦ false ]

module _ {P : Platform} (L : Lexical P) where
  expect_found : Token P → Option (Token P) → Parser P → Parsed (Parser P)
  unfolding same_token advance current_position display_token
  expect_found t none s = err (unexpected_end_of_input (display_token L t) (current_position s))
  expect_found t (some u) s =
      if same_token u t
      then ok (advance s)
      else err (unexpected_token (display_token L t) (display_token L u) (current_position s))

  unfoldable pub expect : Token P → Parser P → Parsed (Parser P)
  unfolding expect_found
  expect t s = expect_found t (peek s) s

  -- the error of `parse_identifier`, `parse_string_literal` and `parse_number_literal`
  unexpected {ℓ} : {A : Type ℓ} → Text → Option (Token P) → Position → Parsed A
  unfolding display_token
  unexpected expected none p = err (unexpected_end_of_input expected p)
  unexpected expected (some u) p = err (unexpected_token expected (display_token L u) p)

  identifier_at : Option (Token P) → Parser P → Parsed (Text × Parser P)
  unfolding advance current_position unexpected
  identifier_at (some (identifier name)) s = ok (name, advance s)
  identifier_at o s = unexpected (text "identifier") o (current_position s)

  unfoldable pub parse_identifier : Parser P → Parsed (Text × Parser P)
  unfolding identifier_at
  parse_identifier s = identifier_at (peek s) s

  literal_at : Option (Token P) → Parser P → Parsed (Text × Parser P)
  unfolding advance current_position unexpected
  literal_at (some (string_literal v)) s = ok (v, advance s)
  literal_at o s = unexpected (text "string literal") o (current_position s)

  unfoldable pub parse_string_literal : Parser P → Parsed (Text × Parser P)
  unfolding literal_at
  parse_string_literal s = literal_at (peek s) s

  numeral_at : Option (Token P) → Parser P → Parsed (P.F64 × Parser P)
  unfolding advance current_position unexpected
  numeral_at (some (number_literal n)) s = ok (n, advance s)
  numeral_at o s = unexpected (text "number literal") o (current_position s)

  unfoldable pub parse_number_literal : Parser P → Parsed (P.F64 × Parser P)
  unfolding numeral_at
  parse_number_literal s = numeral_at (peek s) s
