-- ===== src/Parser/Printed/Lengths.antt =====
-- How many tokens a displayed policy type has at least: the fuel of the parser's loops is their number.
use policyai.Prelude.{
  ◌+◌, ◌≤◌, Text, Bool, true, false, Option, none, some, List, [], ◌∷◌, length, length-append,
  arith,
}
use policyai.Json.{Platform}
use policyai.Field.{Field, OnConflict}
use policyai.Parser.{Token, right_bracket, comma, sticky, highest, last, wins}
use policyai.Parser.Printed.Tokens.{
  conflict_tokens, bool_tokens, string_tokens, number_tokens, values_tokens, all_values_tokens,
  suffix_tokens, fields_tokens, parts_tokens,
}

module _ {P : Platform} where
  length-conflict_tokens :
      (ws : List (Token P)) (c : OnConflict) (us : List (Token P))
      → length us ≤ length (conflict_tokens ws c us)
  unfolding conflict_tokens
  length-conflict_tokens ws OnConflict.default us = omega arith
  length-conflict_tokens ws OnConflict.agreement us = omega arith
  length-conflict_tokens ws OnConflict.largest_value us = omega (arith, length-append ws us)

  length-bool_tokens :
      (d : Option Bool) (us : List (Token P)) → length us ≤ length (bool_tokens d us)
  unfolding bool_tokens
  length-bool_tokens none us = omega arith
  length-bool_tokens (some true) us = omega arith
  length-bool_tokens (some false) us = omega arith

  length-string_tokens :
      (d : Option Text) (us : List (Token P)) → length us ≤ length (string_tokens d us)
  unfolding string_tokens
  length-string_tokens none us = omega arith
  length-string_tokens (some d) us = omega arith

  length-number_tokens :
      (d : Option P.F64) (us : List (Token P)) → length us ≤ length (number_tokens d us)
  unfolding number_tokens
  length-number_tokens none us = omega arith
  length-number_tokens (some d) us = omega arith

  pub length-values_tokens :
      (vs : List Text) (us : List (Token P)) → length vs + length us ≤ length (values_tokens vs us)
  unfolding values_tokens
  length-values_tokens [] us = omega arith
  length-values_tokens (v ∷ vs) us = omega (arith, length-values_tokens vs us)

  length-all_values_tokens :
      (vs : List Text) (us : List (Token P)) → length us ≤ length (all_values_tokens vs us)
  unfolding all_values_tokens
  length-all_values_tokens [] us = omega arith
  length-all_values_tokens (v ∷ vs) us = omega (arith, length-values_tokens vs us)

  length-suffix_tokens :
      (f : Field P) (us : List (Token P)) → length us ≤ length (suffix_tokens f us)
  unfolding suffix_tokens
  length-suffix_tokens (Field.bool _ d c) us =
      let more = bool_tokens d us in
      omega (arith, length-conflict_tokens (sticky ∷ []) c more, length-bool_tokens d us)
  length-suffix_tokens (Field.string _ d c) us =
      let more = string_tokens d us in
      omega (arith, length-conflict_tokens (last ∷ wins ∷ []) c more, length-string_tokens d us)
  length-suffix_tokens (Field.string_enum _ vs d c) us =
      let more = string_tokens d us in
      let conflict = conflict_tokens (highest ∷ wins ∷ []) c more in
      omega (
        arith,
        length-all_values_tokens vs (right_bracket ∷ conflict),
        length-conflict_tokens (highest ∷ wins ∷ []) c more,
        length-string_tokens d us,
      )
  length-suffix_tokens (Field.string_array _) us = omega arith
  length-suffix_tokens (Field.number _ d c) us =
      let more = number_tokens d us in
      omega (arith, length-conflict_tokens (last ∷ wins ∷ []) c more, length-number_tokens d us)

  pub length-fields_tokens :
      (fs : List (Field P)) (us : List (Token P)) → length fs ≤ length (fields_tokens fs us)
  unfolding fields_tokens
  length-fields_tokens [] us = omega arith
  length-fields_tokens (f ∷ fs) us =
      omega
        (arith, length-fields_tokens fs us, length-suffix_tokens f (comma ∷ fields_tokens fs us))

  pub length-parts_tokens :
      (ss : List Text) (us : List (Token P)) → length ss ≤ length (parts_tokens ss us)
  unfolding parts_tokens
  length-parts_tokens [] us = omega arith
  length-parts_tokens (s ∷ ss) us = omega (arith, length-parts_tokens ss us)
