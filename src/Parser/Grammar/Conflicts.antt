-- ===== src/Parser/Grammar/Conflicts.antt =====
-- The strategies and the defaults of fields, and the values of enumerations, as the parser of
-- src/parser.rs reads them.
pub mod Total
use policyai.Prelude.{
  ℕ, zero, suc, ◌+◌, Text, text, text_eq, contains, Bool, true, false, not, ◌&&◌, ◌||◌, Option,
  none, some, List, [], ◌∷◌, ◌++◌, map, if◌then◌else◌, length,
}
use policyai.Json.{Platform}
use policyai.Field
use policyai.Field.{Field, OnConflict}
use policyai.PolicyType.{PolicyType}
use policyai.Parser.{
  Lexical, Position, unexpected_token, unexpected_end_of_input, duplicate_field_name, custom, Token,
  type, identifier, string_literal, number_literal, left_brace, right_brace, left_bracket,
  right_bracket, colon, comma, equals, at_sign, double_colon, agreement, sticky, wins, last,
  highest, largest, Parsed, ok, err, out_of_fuel, ◌>>=◌, display_token,
}
use policyai.Parser.Lexer.{start, tokenize}
use policyai.Parser.Grammar.{
  Parser, peek, advance, current_position, starts, same_token, expect, parse_string_literal,
  parse_number_literal,
}

module _ {P : Platform} where
  -- `parse_bool_conflict` after the `@`
  bool_conflict_at : Option (Token P) → Parser P → Parsed (OnConflict × Parser P)
  unfolding advance current_position
  bool_conflict_at (some sticky) s = ok (OnConflict.largest_value, advance s)
  bool_conflict_at (some agreement) s = ok (OnConflict.agreement, advance s)
  bool_conflict_at _ s =
      err (custom (text "expected 'sticky' or 'agreement' after '@'") (current_position s))

  unfoldable pub parse_bool_conflict : Parser P → Parsed (OnConflict × Parser P)
  unfolding bool_conflict_at starts advance
  parse_bool_conflict s =
      if starts at_sign s
      then bool_conflict_at (peek (advance s)) (advance s)
      else ok (OnConflict.default, s)

  -- the value after the `=` of a boolean
  bool_after : Option (Token P) → Parser P → Parsed (Option Bool × Parser P)
  unfolding current_position
  bool_after (some Token.true) s = ok (some true, s)
  bool_after (some Token.false) s = ok (some false, s)
  bool_after _ s = err (custom (text "expected 'true' or 'false' after '='") (current_position s))

  unfoldable pub bool_default : Parser P → Parsed (Option Bool × Parser P)
  unfolding bool_after starts advance
  bool_default s =
      if starts equals s then bool_after (peek (advance s)) (advance (advance s)) else ok (none, s)

module _ {P : Platform} (L : Lexical P) where
  -- `expect(Wins)`, and then the largest value
  expect_wins : Parser P → Parsed (OnConflict × Parser P)
  unfolding expect
  expect_wins s = expect L wins s >>= (λ s'. ok (OnConflict.largest_value, s'))

  -- what follows the `@` of a string, an enumeration or a number: a word of those that end with
  -- `wins`, or `agreement`
  wins_or_agreement : Bool → Text → Parser P → Parsed (OnConflict × Parser P)
  unfolding expect_wins starts advance current_position
  wins_or_agreement is_wins message s =
      if is_wins
      then expect_wins (advance s)
      else if starts agreement s
      then ok (OnConflict.agreement, advance s)
      else err (custom message (current_position s))

  unfoldable pub parse_string_conflict : Parser P → Parsed (OnConflict × Parser P)
  unfolding wins_or_agreement starts advance
  parse_string_conflict s =
      if starts at_sign s
      then wins_or_agreement (starts last (advance s))
          (text "expected 'last wins' or 'agreement' after '@'") (advance s)
      else ok (OnConflict.default, s)

  unfoldable pub parse_string_enum_conflict : Parser P → Parsed (OnConflict × Parser P)
  unfolding wins_or_agreement starts advance
  parse_string_enum_conflict s =
      if starts at_sign s
      then wins_or_agreement (starts highest (advance s))
          (text "expected 'highest wins' or 'agreement' after '@'") (advance s)
      else ok (OnConflict.default, s)

  unfoldable pub parse_number_conflict : Parser P → Parsed (OnConflict × Parser P)
  unfolding wins_or_agreement starts advance
  parse_number_conflict s =
      if starts at_sign s
      then wins_or_agreement (starts last (advance s) || starts largest (advance s))
          (text "expected 'last wins', 'largest wins', or 'agreement' after '@'") (advance s)
      else ok (OnConflict.default, s)

  -- the default of a string or an enumeration
  unfoldable pub string_default : Parser P → Parsed (Option Text × Parser P)
  unfolding starts advance parse_string_literal
  string_default s =
      if starts equals s
      then parse_string_literal L (advance s) >>= (λ v. ok (some v.0, v.1))
      else ok (none, s)

  unfoldable pub number_default : Parser P → Parsed (Option P.F64 × Parser P)
  unfolding starts advance parse_number_literal
  number_default s =
      if starts equals s
      then parse_number_literal L (advance s) >>= (λ n. ok (some n.0, n.1))
      else ok (none, s)

  -- the loop over the values of an enumeration after the first
  unfoldable pub parse_values : ℕ → Parser P → Parsed (List Text × Parser P)
  unfolding starts advance parse_string_literal
  parse_values zero s = out_of_fuel
  parse_values (suc fuel) s =
      let more =
        parse_string_literal L (advance s)
        >>= (λ v. parse_values fuel v.1 >>= (λ vs. ok (v.0 ∷ vs.0, vs.1))) in
      if starts comma s then more else ok ([], s)
