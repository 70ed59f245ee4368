-- ===== src/Parser/Grammar/Conflicts/Total.antt =====
-- The parser of strategies, defaults and values ends, and puts no token back.
use policyai.Prelude.{
  ℕ, zero, suc, if◌then◌else◌, ◌≤◌, ◌<◌, Text, Bool, ◌||◌, Option, none, some, length, arith,
}
use policyai.Json.{Platform}
use policyai.Field.{OnConflict}
use policyai.Parser.{
  Lexical, Token, Parsed, ok, ◌>>=◌, last, highest, largest, agreement, wins, comma, at_sign,
  equals,
}
use policyai.Parser.Returns.{Returns, Returns-if, Returns-bind}
use policyai.Parser.Grammar.{
  Parser, peek, advance, starts, expect, parse_string_literal, parse_number_literal,
}
use policyai.Parser.Grammar.Conflicts.{
  parse_bool_conflict, bool_conflict_at, bool_after, bool_default, expect_wins, wins_or_agreement,
  parse_string_conflict, parse_string_enum_conflict, parse_number_conflict, string_default,
  number_default, parse_values,
}
use policyai.Parser.Grammar.Total.{
  Keeps, Keeps-imp, advance-length, starts-length, expect-Keeps, parse_string_literal-Keeps,
  parse_number_literal-Keeps,
}

module _ {P : Platform} where
  bool_conflict_at-Keeps :
      (o : Option (Token P)) (s : Parser P)
      → Returns (Keeps (length s.tokens)) (bool_conflict_at o s)
  unfolding bool_conflict_at Returns Keeps
  bool_conflict_at-Keeps (some Token.sticky) s = advance-length s
  bool_conflict_at-Keeps (some Token.agreement) s = advance-length s
  bool_conflict_at-Keeps _ s = tt

  pub parse_bool_conflict-Keeps :
      (s : Parser P) → Returns (Keeps (length s.tokens)) (parse_bool_conflict s)
  unfolding parse_bool_conflict Returns Keeps
  parse_bool_conflict-Keeps s =
      Returns-if (Keeps (length s.tokens)) (starts at_sign s) _ _
        (λ _.
          Keeps-imp (length (advance s).tokens) (length s.tokens) _ (advance-length s)
            (bool_conflict_at-Keeps (peek (advance s)) (advance s)))
        (λ _. omega arith)

  bool_after-Keeps :
      (o : Option (Token P)) (s : Parser P) → Returns (Keeps (length s.tokens)) (bool_after o s)
  unfolding bool_after Returns Keeps
  bool_after-Keeps (some Token.true) s = omega arith
  bool_after-Keeps (some Token.false) s = omega arith
  bool_after-Keeps _ s = tt

  pub bool_default-Keeps : (s : Parser P) → Returns (Keeps (length s.tokens)) (bool_default s)
  unfolding bool_default Returns Keeps
  bool_default-Keeps s =
      let s' = advance s in
      Returns-if (Keeps (length s.tokens)) (starts equals s) _ _
        (λ _.
          Keeps-imp (length (advance s').tokens) (length s.tokens) _
            (omega (arith, advance-length s, advance-length s'))
            (bool_after-Keeps (peek s') (advance s')))
        (λ _. omega arith)

module _ {P : Platform} (L : Lexical P) where
  expect_wins-Keeps : (s : Parser P) → Returns (Keeps (length s.tokens)) (expect_wins L s)
  unfolding expect_wins Returns Keeps
  expect_wins-Keeps s =
      Returns-bind (λ s'. length s'.tokens ≤ length s.tokens) (Keeps (length s.tokens))
        (expect L wins s) _ (expect-Keeps L wins s) (λ s' h. h)

  wins_or_agreement-Keeps :
      (is_wins : Bool) (message : Text) (s : Parser P)
      → Returns (Keeps (length s.tokens)) (wins_or_agreement L is_wins message s)
  unfolding wins_or_agreement Returns Keeps
  wins_or_agreement-Keeps is_wins message s =
      Returns-if (Keeps (length s.tokens)) is_wins _ _
        (λ _.
          Keeps-imp (length (advance s).tokens) (length s.tokens) _ (advance-length s)
            (expect_wins-Keeps (advance s)))
        (λ _.
          Returns-if (Keeps (length s.tokens)) (starts agreement s) _ _ (λ _. advance-length s)
            (λ _. tt))

  -- the strategy after an `@`, if there is one
  conflict-Keeps :
      (is_wins : Bool) (message : Text) (s : Parser P)
      → Returns (Keeps (length s.tokens)) (
          if starts at_sign s
          then wins_or_agreement L is_wins message (advance s)
          else ok (OnConflict.default, s))
  unfolding Returns Keeps
  conflict-Keeps is_wins message s =
      Returns-if (Keeps (length s.tokens)) (starts at_sign s) _ _
        (λ _.
          Keeps-imp (length (advance s).tokens) (length s.tokens) _ (advance-length s)
            (wins_or_agreement-Keeps is_wins message (advance s)))
        (λ _. omega arith)

  pub parse_string_conflict-Keeps :
      (s : Parser P) → Returns (Keeps (length s.tokens)) (parse_string_conflict L s)
  unfolding parse_string_conflict
  parse_string_conflict-Keeps s = conflict-Keeps (starts last (advance s)) _ s

  pub parse_string_enum_conflict-Keeps :
      (s : Parser P) → Returns (Keeps (length s.tokens)) (parse_string_enum_conflict L s)
  unfolding parse_string_enum_conflict
  parse_string_enum_conflict-Keeps s = conflict-Keeps (starts highest (advance s)) _ s

  pub parse_number_conflict-Keeps :
      (s : Parser P) → Returns (Keeps (length s.tokens)) (parse_number_conflict L s)
  unfolding parse_number_conflict
  parse_number_conflict-Keeps s =
      conflict-Keeps (starts last (advance s) || starts largest (advance s)) _ s

  -- the default after an `=`, if there is one
  default-Keeps {ℓ} :
      {A : Type ℓ} (read : Parser P → Parsed (A × Parser P)) (s : Parser P)
      → ((s : Parser P) → Returns (Keeps (length s.tokens)) (read s))
      → Returns
          (Keeps (length s.tokens))
          (if starts equals s then read (advance s) >>= (λ v. ok (some v.0, v.1)) else ok (none, s))
  unfolding Returns Keeps
  default-Keeps read s h =
      Returns-if (Keeps (length s.tokens)) (starts equals s) _ _
        (λ _.
          Returns-bind (Keeps (length (advance s).tokens)) (Keeps (length s.tokens))
            (read (advance s)) _ (h (advance s)) (λ r k. omega (arith, advance-length s)))
        (λ _. omega arith)

  pub string_default-Keeps : (s : Parser P) → Returns (Keeps (length s.tokens)) (string_default L s)
  unfolding string_default
  string_default-Keeps s = default-Keeps (parse_string_literal L) s (parse_string_literal-Keeps L)

  pub number_default-Keeps : (s : Parser P) → Returns (Keeps (length s.tokens)) (number_default L s)
  unfolding number_default
  number_default-Keeps s = default-Keeps (parse_number_literal L) s (parse_number_literal-Keeps L)

  -- with fuel for each token and one more
  pub parse_values-Keeps :
      (fuel : ℕ) (s : Parser P)
      → length s.tokens < fuel
      → Returns (Keeps (length s.tokens)) (parse_values L fuel s)
  unfolding parse_values Returns Keeps
  parse_values-Keeps zero s h = absurd (omega arith)
  parse_values-Keeps (suc fuel) s h =
      let n = length s.tokens in
      Returns-if (Keeps n) (starts comma s) _ _
        (λ e.
          Returns-bind (Keeps (length (advance s).tokens)) (Keeps n)
            (parse_string_literal L (advance s)) _ (parse_string_literal-Keeps L (advance s))
            (λ v k.
              Returns-bind (Keeps (length v.1.tokens)) (Keeps n) (parse_values L fuel v.1) _
                (parse_values-Keeps fuel v.1 (omega (arith, starts-length comma s e)))
                (λ vs m. omega (arith, advance-length s))))
        (λ _. omega arith)
