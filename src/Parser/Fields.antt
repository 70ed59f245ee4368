-- ===== src/Parser/Fields.antt =====
-- `parse_field`, `parse_policy_type` and `parse` of src/parser.rs.
pub mod Sound
use policyai.Prelude.{
  ℕ, zero, suc, ◌+◌, Text, text, text_eq, contains, Bool, true, false, not, ◌&&◌, ◌||◌, Option,
  none, some, List, [], ◌∷◌, ◌++◌, if◌then◌else◌, length,
}
use policyai.Json.{Platform}
use policyai.Field
use policyai.Field.{Field, OnConflict}
use policyai.PolicyType.{PolicyType}
use policyai.Parser.{
  Lexical, Position, duplicate_field_name, custom, Token, type, left_brace, right_brace,
  left_bracket, right_bracket, colon, comma, double_colon, Parsed, ok, err, out_of_fuel, ◌>>=◌,
}
use policyai.Parser.Lexer.{tokenize}
use policyai.Parser.Grammar.{
  Parser, new, current_position, peek, advance, starts, at_end, expect, parse_identifier,
  parse_string_literal,
}
use policyai.Parser.Grammar.Conflicts.{
  parse_bool_conflict, bool_default, parse_string_conflict, parse_string_enum_conflict,
  parse_number_conflict, string_default, number_default, parse_values,
}

-- `name_parts.join("::")`
unfoldable pub join : List Text → Text
join [] = []
join (s ∷ []) = s
join (s ∷ t ∷ ts) = s ++ (text "::" ++ join (t ∷ ts))

module _ {P : Platform} (L : Lexical P) where
  -- after `[`, where the next token is not `string`
  parse_enum : Text → Parser P → Parsed (Field P × Parser P)
  unfolding parse_string_literal parse_values expect parse_string_enum_conflict string_default
  parse_enum name s = do
    v ← parse_string_literal L s
    vs ← parse_values L (suc (length v.1.tokens)) v.1
    s' ← expect L right_bracket vs.1
    c ← parse_string_enum_conflict L s'
    d ← string_default L c.1
    ok (Field.string_enum name (v.0 ∷ vs.0) d.0 c.0, d.1)

  parse_bracket : Text → Parser P → Parsed (Field P × Parser P)
  unfolding starts advance expect parse_enum
  parse_bracket name s =
      if starts Token.string s
      then expect L right_bracket (advance s) >>= (λ s'. ok (Field.string_array name, s'))
      else parse_enum name s

  -- the arms of `parse_field`, at the token after the colon
  field_at : Text → Option (Token P) → Parser P → Parsed (Field P × Parser P)
  unfolding advance parse_bool_conflict bool_default parse_string_conflict string_default
      parse_number_conflict number_default parse_bracket current_position
  field_at name (some Token.bool) s = do
    c ← parse_bool_conflict (advance s)
    d ← bool_default c.1
    ok (Field.bool name d.0 c.0, d.1)
  field_at name (some Token.string) s = do
    c ← parse_string_conflict L (advance s)
    d ← string_default L c.1
    ok (Field.string name d.0 c.0, d.1)
  field_at name (some Token.number) s = do
    c ← parse_number_conflict L (advance s)
    d ← number_default L c.1
    ok (Field.number name d.0 c.0, d.1)
  field_at name (some left_bracket) s = parse_bracket name (advance s)
  field_at name _ s =
      err (custom (text "expected field type (bool, string, number, or [...)") (current_position s))

  unfoldable pub parse_field : Parser P → Parsed (Field P × Parser P)
  unfolding parse_identifier expect field_at
  parse_field s = do
    name ← parse_identifier L s
    s' ← expect L colon name.1
    field_at name.0 (peek s') s'

  -- the loop over the parts of the name after the first
  unfoldable pub parse_name_parts : ℕ → Parser P → Parsed (List Text × Parser P)
  unfolding starts advance parse_identifier
  parse_name_parts zero s = out_of_fuel
  parse_name_parts (suc fuel) s =
      let more =
        parse_identifier L (advance s)
        >>= (λ part. parse_name_parts fuel part.1 >>= (λ parts. ok (part.0 ∷ parts.0, parts.1))) in
      if starts double_colon s then more else ok ([], s)

  -- the comma after a field, which may be left out before the closing brace
  optional_comma : Parser P → Parsed (Parser P)
  unfolding starts advance current_position
  optional_comma s =
      if starts comma s
      then ok (advance s)
      else if not (starts right_brace s)
      then err (custom (text "expected ',' or '}' after field definition") (current_position s))
      else ok s

  -- a field that was read, and the rest of the loop, which takes the names seen so far
  field_read :
      List Text
      → Field P × Parser P
      → (List Text → Parser P → Parsed (List (Field P) × Parser P))
      → Parsed (List (Field P) × Parser P)
  unfolding optional_comma current_position
  field_read seen read rest =
      if contains seen (Field.name read.0)
      then err (duplicate_field_name (Field.name read.0) (current_position read.1))
      else optional_comma read.1
        >>= (λ s. rest (Field.name read.0 ∷ seen) s >>= (λ fs. ok (read.0 ∷ fs.0, fs.1)))

  unfoldable pub parse_fields : ℕ → List Text → Parser P → Parsed (List (Field P) × Parser P)
  unfolding starts at_end parse_field field_read
  parse_fields zero seen s = out_of_fuel
  parse_fields (suc fuel) seen s =
      let more = parse_field s >>= (λ read. field_read seen read (parse_fields fuel)) in
      if not (starts right_brace s) && not (at_end s) then more else ok ([], s)

  unfoldable pub parse_policy_type : Parser P → Parsed (PolicyType P × Parser P)
  unfolding expect parse_identifier parse_name_parts parse_fields join
  parse_policy_type s0 = do
    s1 ← expect L type s0
    part ← parse_identifier L s1
    parts ← parse_name_parts (suc (length part.1.tokens)) part.1
    s2 ← expect L left_brace parts.1
    fields ← parse_fields (suc (length s2.tokens)) [] s2
    s3 ← expect L right_brace fields.1
    ok (record { name = join (part.0 ∷ parts.0); fields = fields.0 }, s3)

  unfoldable pub parse : Text → Parsed (PolicyType P)
  unfolding tokenize new parse_policy_type
  parse input = do tokens ← tokenize L input; read ← parse_policy_type (new tokens); ok read.0
