-- ===== src/Parser/Lexer.antt =====
-- The lexer of src/parser.rs. What is left of the input stands for the whole input and the index in it.
pub mod Total
use policyai.Prelude.{
  ℕ, zero, suc, ◌+◌, Text, text, text_eq, Bool, true, false, not, ◌&&◌, ◌||◌, Option, none, some,
  List, [], ◌∷◌, ◌++◌, leb, ◌==◌, if◌then◌else◌, length,
}
use policyai.Json.{Platform}
use policyai.Parser.{
  Lexical, Position, invalid_string_literal, invalid_number, custom, Token, type, identifier,
  string_literal, number_literal, left_brace, right_brace, left_bracket, right_bracket, colon,
  comma, equals, at_sign, double_colon, agreement, sticky, wins, last, highest, largest, Parsed, ok,
  err, out_of_fuel, ◌>>=◌,
}

-- the rest of the input and where it begins
pub record Lexer : Type 0 where
  pub input : Text
  pub position : Position

abbrev pub start : Position
start = record { line = 1; column = 1 }

-- `advance` over a character
unfoldable pub advanced : ℕ → Position → Position
advanced c p =
    if c == b'\n'
    then record { line = p.line + 1; column = 1 }
    else record p { column = p.column + 1 }

unfoldable pub is_ascii_digit : ℕ → Bool
is_ascii_digit c = leb b'0' c && leb c b'9'

-- the loop of `read_string_literal`, from the position of the opening quote
unfoldable pub read_characters : Position → Bool → Text → Text → Position → Parsed (Text × Lexer)
unfolding advanced
read_characters start_pos escaped result [] p =
    err (invalid_string_literal (text "unterminated string literal") start_pos)
read_characters start_pos true result (c ∷ s) p =
    if c == b'"' || c == b'\\'
    then read_characters start_pos false (result ++ c ∷ []) s (advanced c p)
    else err (invalid_string_literal (text "invalid escape sequence '\\" ++ c ∷ text "'") p)
read_characters start_pos false result (c ∷ s) p = elim (c == b'\\') [
  | true ↦ read_characters start_pos true result s (advanced c p)
  | false ↦ elim (c == b'"') [
    | true ↦ ok (result, record { input = s; position = advanced c p })
    | false ↦ read_characters start_pos false (result ++ c ∷ []) s (advanced c p)
  ]
]

-- the digits of `read_number`; the flag says that there is a point before them
unfoldable pub read_digits : Bool → Text → Position → Text × Lexer
unfolding advanced is_ascii_digit
read_digits point [] p = ([], record { input = []; position = p })
read_digits point (c ∷ s) p =
    if is_ascii_digit c || (c == b'.' && not point)
    then (let rest = read_digits (point || c == b'.') s (advanced c p) in (c ∷ rest.0, rest.1))
    else ([], record { input = c ∷ s; position = p })

-- the digits, after the sign if there is one
unfoldable pub read_numeral : Text → Position → Text × Lexer
unfolding read_digits
read_numeral [] p = read_digits false [] p
read_numeral (c ∷ s) p =
    if c == b'-'
    then (let rest = read_digits false s (advanced c p) in (c ∷ rest.0, rest.1))
    else read_digits false (c ∷ s) p

module _ {P : Platform} (L : Lexical P) where
  unfoldable pub skip_whitespace : Text → Position → Lexer
  unfolding advanced
  skip_whitespace [] p = record { input = []; position = p }
  skip_whitespace (c ∷ s) p =
      if L.is_whitespace c
      then skip_whitespace s (advanced c p)
      else record { input = c ∷ s; position = p }

  -- may a character stand in an identifier?
  unfoldable pub is_word : ℕ → Bool
  is_word c = L.is_alphanumeric c || c == b'_'

  unfoldable pub read_identifier : Text → Position → Text × Lexer
  unfolding is_word advanced
  read_identifier [] p = ([], record { input = []; position = p })
  read_identifier (c ∷ s) p =
      if is_word c
      then (let rest = read_identifier s (advanced c p) in (c ∷ rest.0, rest.1))
      else ([], record { input = c ∷ s; position = p })

  unfoldable pub number_of : Position → Text × Lexer → Option P.F64 → Parsed (Token P × Lexer)
  number_of start_pos read none =
      err (invalid_number (b'\'' ∷ (read.0 ++ text "' is not a valid number")) start_pos)
  number_of start_pos read (some n) = ok (number_literal n, read.1)

  unfoldable pub read_number : Text → Position → Parsed (Token P × Lexer)
  unfolding read_numeral number_of
  read_number s p = let read = read_numeral s p in number_of p read (L.parse_f64 read.0)

  -- the keywords
  unfoldable pub keyword : Text → Token P
  keyword ident =
      if text_eq ident (text "type")
      then type
      else if text_eq ident (text "bool")
      then Token.bool
      else if text_eq ident (text "string")
      then Token.string
      else if text_eq ident (text "number")
      then Token.number
      else if text_eq ident (text "true")
      then Token.true
      else if text_eq ident (text "false")
      then Token.false
      else if text_eq ident (text "agreement")
      then agreement
      else if text_eq ident (text "sticky")
      then sticky
      else if text_eq ident (text "wins")
      then wins
      else if text_eq ident (text "last")
      then last
      else if text_eq ident (text "highest")
      then highest
      else if text_eq ident (text "largest")
      then largest
      else identifier ident

  -- after a colon
  unfoldable pub colon_or_double : Text → Position → Token P × Lexer
  unfolding advanced
  colon_or_double [] p = (colon, record { input = []; position = p })
  colon_or_double (c ∷ s) p =
      if c == b':'
      then (double_colon, record { input = s; position = advanced c p })
      else (colon, record { input = c ∷ s; position = p })

  -- the arms of `tokenize`, at the next character and those after it
  unfoldable pub next_token : ℕ → Text → Position → Parsed (Token P × Lexer)
  unfolding advanced is_ascii_digit read_characters read_number colon_or_double keyword
      read_identifier
  next_token c s p =
      let after : Lexer = record { input = s; position = advanced c p } in
      if c == b'"'
      then read_characters p false [] s (advanced c p)
        >>= (λ read. ok (string_literal read.0, read.1))
      else if c == b'-' || is_ascii_digit c
      then read_number (c ∷ s) p
      else if c == b'{'
      then ok (left_brace, after)
      else if c == b'}'
      then ok (right_brace, after)
      else if c == b'['
      then ok (left_bracket, after)
      else if c == b']'
      then ok (right_bracket, after)
      else if c == b':'
      then ok (colon_or_double s (advanced c p))
      else if c == b','
      then ok (comma, after)
      else if c == b'='
      then ok (equals, after)
      else if c == b'@'
      then ok (at_sign, after)
      else if L.is_alphabetic c || c == b'_'
      then (let read = read_identifier (c ∷ s) p in ok (keyword read.0, read.1))
      else err (custom (text "unexpected character '" ++ c ∷ text "'") p)

  -- one round of `tokenize` after the white space; `rest` goes on with the loop
  unfoldable pub tokenize_at :
      (Text → Position → Parsed (List (Token P × Position)))
      → Text
      → Position
      → Parsed (List (Token P × Position))
  unfolding next_token
  tokenize_at rest [] p = ok []
  tokenize_at rest (c ∷ s) p =
      next_token c s p
      >>= (λ read. rest read.1.input read.1.position >>= (λ tokens. ok ((read.0, p) ∷ tokens)))

  -- the loop of `tokenize`, on fuel
  unfoldable pub tokenize_from : ℕ → Text → Position → Parsed (List (Token P × Position))
  unfolding skip_whitespace tokenize_at
  tokenize_from zero s p = out_of_fuel
  tokenize_from (suc fuel) s p =
      let l = skip_whitespace s p in tokenize_at (tokenize_from fuel) l.input l.position

  -- Every round of the loop reads a character at least.
  unfoldable pub tokenize : Text → Parsed (List (Token P × Position))
  unfolding tokenize_from
  tokenize input = tokenize_from (suc (length input)) input start
