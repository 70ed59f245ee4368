-- ===== src/Parser/Printed/Tokens.antt =====
-- The tokens of a displayed policy type, in front of those of the text that follows.
use policyai.Prelude.{Text, Bool, true, false, Option, none, some, List, [], ◌∷◌, ◌++◌}
use policyai.Json.{Platform}
use policyai.Field
use policyai.Field.{Field, OnConflict}
use policyai.Parser.{
  Token, type, identifier, string_literal, number_literal, left_brace, right_brace, left_bracket,
  right_bracket, colon, comma, equals, at_sign, double_colon, agreement, sticky, wins, last,
  highest,
}

module _ {P : Platform} where
  -- `ws` says that the largest value is kept.
  unfoldable pub conflict_tokens : List (Token P) → OnConflict → List (Token P) → List (Token P)
  conflict_tokens ws OnConflict.default us = us
  conflict_tokens ws OnConflict.agreement us = at_sign ∷ agreement ∷ us
  conflict_tokens ws OnConflict.largest_value us = at_sign ∷ (ws ++ us)

  unfoldable pub bool_tokens : Option Bool → List (Token P) → List (Token P)
  bool_tokens none us = us
  bool_tokens (some true) us = equals ∷ Token.true ∷ us
  bool_tokens (some false) us = equals ∷ Token.false ∷ us

  unfoldable pub string_tokens : Option Text → List (Token P) → List (Token P)
  string_tokens none us = us
  string_tokens (some d) us = equals ∷ string_literal d ∷ us

  unfoldable pub number_tokens : Option P.F64 → List (Token P) → List (Token P)
  number_tokens none us = us
  number_tokens (some d) us = equals ∷ number_literal d ∷ us

  -- the values after the first
  unfoldable pub values_tokens : List Text → List (Token P) → List (Token P)
  values_tokens [] us = us
  values_tokens (v ∷ vs) us = comma ∷ string_literal v ∷ values_tokens vs us

  unfoldable pub all_values_tokens : List Text → List (Token P) → List (Token P)
  unfolding values_tokens
  all_values_tokens [] us = us
  all_values_tokens (v ∷ vs) us = string_literal v ∷ values_tokens vs us

  -- what follows the name of a field
  unfoldable pub suffix_tokens : Field P → List (Token P) → List (Token P)
  unfolding conflict_tokens bool_tokens string_tokens number_tokens all_values_tokens
  suffix_tokens (Field.bool name d c) us =
      colon ∷ Token.bool ∷ conflict_tokens (sticky ∷ []) c (bool_tokens d us)
  suffix_tokens (Field.string name d c) us =
      colon ∷ Token.string ∷ conflict_tokens (last ∷ wins ∷ []) c (string_tokens d us)
  suffix_tokens (Field.string_enum name vs d c) us =
      colon
      ∷ left_bracket
      ∷ all_values_tokens vs
          (right_bracket ∷ conflict_tokens (highest ∷ wins ∷ []) c (string_tokens d us))
  suffix_tokens (Field.string_array name) us =
      colon ∷ left_bracket ∷ Token.string ∷ right_bracket ∷ us
  suffix_tokens (Field.number name d c) us =
      colon ∷ Token.number ∷ conflict_tokens (last ∷ wins ∷ []) c (number_tokens d us)

  unfoldable pub fields_tokens : List (Field P) → List (Token P) → List (Token P)
  unfolding suffix_tokens
  fields_tokens [] us = us
  fields_tokens (f ∷ fs) us =
      identifier (Field.name f) ∷ suffix_tokens f (comma ∷ fields_tokens fs us)

  -- the parts of the name after the first
  unfoldable pub parts_tokens : List Text → List (Token P) → List (Token P)
  parts_tokens [] us = us
  parts_tokens (s ∷ ss) us = double_colon ∷ identifier s ∷ parts_tokens ss us

  unfoldable pub type_tokens : Text → List Text → List (Field P) → List (Token P)
  unfolding parts_tokens fields_tokens
  type_tokens part parts fs =
      type ∷ identifier part ∷ parts_tokens parts (left_brace ∷ fields_tokens fs (right_brace ∷ []))
