-- ===== src/Parser.antt =====
-- src/parser.rs: the language in which policy types are written. Here are its tokens and errors; the
-- lexer is in Parser/Lexer, and the parser of tokens in Parser/Grammar.
pub mod Returns
pub mod Lexer
pub mod Grammar
pub mod Fields
pub mod Printed
pub mod RoundTrip
pub mod Errors
use policyai.Prelude.{ℕ, ◌+◌, Text, text, Bool, Option, ◌++◌, ◌∷◌, []}
use policyai.Json.{Platform}

-- What the sources call of the standard library: the classes of characters, and the numerals of `f64`.
pub record Lexical (P : Platform) : Type 0 where
  pub is_whitespace : ℕ → Bool
  pub is_alphabetic : ℕ → Bool
  pub is_alphanumeric : ℕ → Bool
  -- `str::parse::<f64>`
  pub parse_f64 : Text → Option P.F64
  -- `{}` of an `f64`
  pub display_f64 : P.F64 → Text

pub record Position : Type 0 where
  pub line : ℕ
  pub column : ℕ

-- Each has its texts, and then the position.
pub data ParseError : Type 0 where
  -- what was expected, and what was found
  unexpected_token : Text → Text → Position → ParseError
  unexpected_end_of_input : Text → Position → ParseError
  invalid_identifier : Text → Position → ParseError
  invalid_string_literal : Text → Position → ParseError
  invalid_number : Text → Position → ParseError
  duplicate_field_name : Text → Position → ParseError
  custom : Text → Position → ParseError

pub data Token (P : Platform) : Type 0 where
  type : Token P
  bool : Token P
  string : Token P
  number : Token P
  true : Token P
  false : Token P
  identifier : Text → Token P
  string_literal : Text → Token P
  number_literal : P.F64 → Token P
  left_brace : Token P
  right_brace : Token P
  left_bracket : Token P
  right_bracket : Token P
  colon : Token P
  comma : Token P
  equals : Token P
  at_sign : Token P
  double_colon : Token P
  agreement : Token P
  sticky : Token P
  wins : Token P
  last : Token P
  highest : Token P
  largest : Token P

-- The result of reading. `out_of_fuel` has no counterpart in the sources, whose loops are not bounded.
pub data Parsed {ℓ} (A : Type ℓ) : Type ℓ where
  ok : A → Parsed A
  err : ParseError → Parsed A
  out_of_fuel : Parsed A

infixl 5 ◌>>=◌
abbrev pub ◌>>=◌ {ℓ κ} : {A : Type ℓ} {B : Type κ} → Parsed A → (A → Parsed B) → Parsed B
ok a >>= f = f a
err e >>= f = err e
out_of_fuel >>= f = out_of_fuel

module _ {P : Platform} (L : Lexical P) where
  -- `Display` of a token
  unfoldable pub display_token : Token P → Text
  display_token type = text "type"
  display_token bool = text "bool"
  display_token string = text "string"
  display_token number = text "number"
  display_token true = text "true"
  display_token false = text "false"
  display_token (identifier s) = s
  display_token (string_literal s) = b'"' ∷ (s ++ b'"' ∷ [])
  display_token (number_literal n) = L.display_f64 n
  display_token left_brace = text "{"
  display_token right_brace = text "}"
  display_token left_bracket = text "["
  display_token right_bracket = text "]"
  display_token colon = text ":"
  display_token comma = text ","
  display_token equals = text "="
  display_token at_sign = text "@"
  display_token double_colon = text "::"
  display_token agreement = text "agreement"
  display_token sticky = text "sticky"
  display_token wins = text "wins"
  display_token last = text "last"
  display_token highest = text "highest"
  display_token largest = text "largest"
