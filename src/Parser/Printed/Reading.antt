-- ===== src/Parser/Printed/Reading.antt =====
-- How the parser reads the tokens of a displayed policy type.
use policyai.Prelude.{
  ℕ, zero, suc, ◌<◌, ◌≡◌, refl, Text, Bool, true, false, Option, none, some, List, [], ◌∷◌, length,
  arith,
}
use policyai.Json.{Platform}
use policyai.Field
use policyai.Field.{Field, OnConflict}
use policyai.Parser.{
  Lexical, Position, Token, identifier, right_bracket, comma, highest, wins, Parsed, ok, ◌>>=◌,
}
use policyai.Parser.Grammar.{
  Parser, advance, starts, same_token, expect, parse_identifier, parse_string_literal, tail,
  parse_number_literal,
}
use policyai.Parser.Grammar.Conflicts.{
  parse_bool_conflict, bool_default, parse_string_conflict, parse_string_enum_conflict,
  parse_number_conflict, string_default, number_default, parse_values,
}
use policyai.Parser.Fields.{parse_field}
use policyai.Parser.Printed.{IsPrintable}
use policyai.Parser.Printed.Lengths.{length-values_tokens}
use policyai.Parser.Printed.Tokens.{
  conflict_tokens, bool_tokens, string_tokens, number_tokens, values_tokens, all_values_tokens,
  suffix_tokens,
}

module _ {P : Platform} (L : Lexical P) where
  -- The tokens are read as the value, at whatever positions they are, up to the rest.
  unfoldable pub ReadsAs {ℓ} :
      {A : Type ℓ}
      → (Parser P → Parsed (A × Parser P))
      → List (Token P)
      → A
      → List (Token P)
      → Type ℓ
  ReadsAs {A = A} read us a rest =
      (ps : List Position) (e : Position)
      → (qs : List Position) × (read (record { tokens = us; positions = ps; end_position = e })
          ≡ ok (a, record { tokens = rest; positions = qs; end_position = e }))

  parse_field-bool :
      (name : Text) (c : OnConflict) (d : Option Bool) (us : List (Token P))
      → ReadsAs
          (parse_field L)
          (identifier name ∷ suffix_tokens (Field.bool name d c) (comma ∷ us))
          (Field.bool name d c)
          (comma ∷ us)
  unfolding ReadsAs parse_field suffix_tokens conflict_tokens bool_tokens parse_identifier expect
      parse_bool_conflict bool_default starts same_token advance
  parse_field-bool name OnConflict.default none us ps e = (_, refl)
  parse_field-bool name OnConflict.default (some true) us ps e = (_, refl)
  parse_field-bool name OnConflict.default (some false) us ps e = (_, refl)
  parse_field-bool name OnConflict.agreement none us ps e = (_, refl)
  parse_field-bool name OnConflict.agreement (some true) us ps e = (_, refl)
  parse_field-bool name OnConflict.agreement (some false) us ps e = (_, refl)
  parse_field-bool name OnConflict.largest_value none us ps e = (_, refl)
  parse_field-bool name OnConflict.largest_value (some true) us ps e = (_, refl)
  parse_field-bool name OnConflict.largest_value (some false) us ps e = (_, refl)

  parse_field-string :
      (name : Text) (c : OnConflict) (d : Option Text) (us : List (Token P))
      → ReadsAs
          (parse_field L)
          (identifier name ∷ suffix_tokens (Field.string name d c) (comma ∷ us))
          (Field.string name d c)
          (comma ∷ us)
  unfolding ReadsAs parse_field suffix_tokens conflict_tokens string_tokens parse_identifier expect
      parse_string_conflict string_default parse_string_literal starts same_token advance
  parse_field-string name OnConflict.default none us ps e = (_, refl)
  parse_field-string name OnConflict.default (some d) us ps e = (_, refl)
  parse_field-string name OnConflict.agreement none us ps e = (_, refl)
  parse_field-string name OnConflict.agreement (some d) us ps e = (_, refl)
  parse_field-string name OnConflict.largest_value none us ps e = (_, refl)
  parse_field-string name OnConflict.largest_value (some d) us ps e = (_, refl)

  parse_field-number :
      (name : Text) (c : OnConflict) (d : Option P.F64) (us : List (Token P))
      → ReadsAs
          (parse_field L)
          (identifier name ∷ suffix_tokens (Field.number name d c) (comma ∷ us))
          (Field.number name d c)
          (comma ∷ us)
  unfolding ReadsAs parse_field suffix_tokens conflict_tokens number_tokens parse_identifier expect
      parse_number_conflict number_default parse_number_literal starts same_token advance
  parse_field-number name OnConflict.default none us ps e = (_, refl)
  parse_field-number name OnConflict.default (some d) us ps e = (_, refl)
  parse_field-number name OnConflict.agreement none us ps e = (_, refl)
  parse_field-number name OnConflict.agreement (some d) us ps e = (_, refl)
  parse_field-number name OnConflict.largest_value none us ps e = (_, refl)
  parse_field-number name OnConflict.largest_value (some d) us ps e = (_, refl)

  -- With fuel for each value, the values are read up to the bracket.
  parse_values-values_tokens :
      (fuel : ℕ) (vs : List Text) (us : List (Token P))
      → length vs < fuel
      → ReadsAs
          (parse_values L fuel)
          (values_tokens vs (right_bracket ∷ us))
          vs
          (right_bracket ∷ us)
  unfolding ReadsAs parse_values values_tokens parse_string_literal starts same_token advance
  parse_values-values_tokens zero vs us h ps e = absurd (omega arith)
  parse_values-values_tokens (suc fuel) [] us h ps e = (_, refl)
  parse_values-values_tokens (suc fuel) (v ∷ vs) us h ps e =
      let (qs, k) = parse_values-values_tokens fuel vs us (omega arith) (tail (tail ps)) e in
      (qs, rw k)

  -- what follows the values of an enumeration
  enum_end : Text → List Text → Parser P → Parsed (Field P × Parser P)
  unfolding expect parse_string_enum_conflict string_default
  enum_end name values s = do
    s' ← expect L right_bracket s
    c ← parse_string_enum_conflict L s'
    d ← string_default L c.1
    ok (Field.string_enum name values d.0 c.0, d.1)

  enum_end_lem :
      (name : Text) (values : List Text) (c : OnConflict) (d : Option Text) (us : List (Token P))
      → ReadsAs
          (enum_end name values)
          (right_bracket ∷ conflict_tokens (highest ∷ wins ∷ []) c (string_tokens d (comma ∷ us)))
          (Field.string_enum name values d c)
          (comma ∷ us)
  unfolding ReadsAs enum_end conflict_tokens string_tokens expect parse_string_enum_conflict
      string_default parse_string_literal starts same_token advance
  enum_end_lem name values OnConflict.default none us ps e = (_, refl)
  enum_end_lem name values OnConflict.default (some d) us ps e = (_, refl)
  enum_end_lem name values OnConflict.agreement none us ps e = (_, refl)
  enum_end_lem name values OnConflict.agreement (some d) us ps e = (_, refl)
  enum_end_lem name values OnConflict.largest_value none us ps e = (_, refl)
  enum_end_lem name values OnConflict.largest_value (some d) us ps e = (_, refl)

  parse_field-string_enum :
      (name v : Text) (vs : List Text) (c : OnConflict) (d : Option Text) (us : List (Token P))
      → ReadsAs
          (parse_field L)
          (identifier name ∷ suffix_tokens (Field.string_enum name (v ∷ vs) d c) (comma ∷ us))
          (Field.string_enum name (v ∷ vs) d c)
          (comma ∷ us)
  unfolding ReadsAs enum_end parse_field suffix_tokens all_values_tokens parse_identifier expect
      parse_string_enum_conflict string_default parse_string_literal starts same_token advance
  parse_field-string_enum name v vs c d us ps e =
      let more = conflict_tokens (highest ∷ wins ∷ []) c (string_tokens d (comma ∷ us)) in
      let (qs, k) =
        parse_values-values_tokens (suc (length (values_tokens vs (right_bracket ∷ more)))) vs more
          (omega (arith, length-values_tokens vs (right_bracket ∷ more)))
          (tail (tail (tail (tail ps)))) e in
      let (rs, m) = enum_end_lem name (v ∷ vs) c d us qs e in (rs, rw (k, m))

  parse_field-string_array :
      (name : Text) (us : List (Token P))
      → ReadsAs
          (parse_field L)
          (identifier name ∷ suffix_tokens (Field.string_array name) (comma ∷ us))
          (Field.string_array name)
          (comma ∷ us)
  unfolding ReadsAs parse_field suffix_tokens parse_identifier expect starts same_token advance
  parse_field-string_array name us ps e = (_, refl)

  -- a printable field, before a comma
  pub parse_field-suffix_tokens :
      (f : Field P) (us : List (Token P))
      → IsPrintable L f
      → ReadsAs
          (parse_field L)
          (identifier (Field.name f) ∷ suffix_tokens f (comma ∷ us))
          f
          (comma ∷ us)
  unfolding Field.name IsPrintable
  parse_field-suffix_tokens (Field.bool name d c) us h = parse_field-bool name c d us
  parse_field-suffix_tokens (Field.string name d c) us h = parse_field-string name c d us
  parse_field-suffix_tokens (Field.string_enum name [] d c) us h = absurd (h.1 refl)
  parse_field-suffix_tokens (Field.string_enum name (v ∷ vs) d c) us h =
      parse_field-string_enum name v vs c d us
  parse_field-suffix_tokens (Field.string_array name) us h = parse_field-string_array name us
  parse_field-suffix_tokens (Field.number name d c) us h = parse_field-number name c d us
