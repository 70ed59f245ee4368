-- ===== src/Parser/Grammar/Total.antt =====
-- The parts of the parser of src/parser.rs end, and put no token back.
use policyai.Prelude.{ℕ, ◌≤◌, ◌<◌, ◌≡◌, true, Option, none, some, List, [], ◌∷◌, length, arith}
use policyai.Json.{Platform}
use policyai.Parser.{Lexical, Token, Position, Parsed}
use policyai.Parser.Returns.{Returns, Returns-imp, Returns-if}
use policyai.Parser.Grammar.{
  Parser, tail, head?, found, peek, advance, starts, same_token, expect, expect_found,
  identifier_at, parse_identifier, literal_at, parse_string_literal, numeral_at,
  parse_number_literal, unexpected,
}

module _ {P : Platform} where
  -- No more than so many tokens are left.
  unfoldable pub Keeps {ℓ} : {A : Type ℓ} → ℕ → A × Parser P → Type 0
  Keeps n r = length r.1.tokens ≤ n

  pub Keeps-imp {ℓ} :
      {A : Type ℓ} (m n : ℕ) (r : Parsed (A × Parser P))
      → m ≤ n
      → Returns (Keeps m) r
      → Returns (Keeps n) r
  unfolding Keeps
  Keeps-imp m n r l = Returns-imp (Keeps m) (Keeps n) r (λ a h. omega arith)

  length-tail : (us : List (Token P)) → length (tail us) ≤ length us
  length-tail [] = omega arith
  length-tail (u ∷ us) = omega arith

  found-length :
      (us : List (Token P)) (t : Token P) → found (head? us) t ≡ true → length (tail us) < length us
  found-length [] t h = absurd (cc)
  found-length (u ∷ us) t h = omega arith

  pub advance-length : (s : Parser P) → length (advance s).tokens ≤ length s.tokens
  unfolding advance
  advance-length s = length-tail s.tokens

  -- A token that was found is taken.
  pub starts-length :
      (t : Token P) (s : Parser P) → starts t s ≡ true → length (advance s).tokens < length s.tokens
  unfolding advance starts
  starts-length t s h = found-length s.tokens t h

module _ {P : Platform} (L : Lexical P) where
  expect_found-Keeps :
      (t : Token P) (o : Option (Token P)) (s : Parser P)
      → Returns (λ s'. length s'.tokens ≤ length s.tokens) (expect_found L t o s)
  unfolding expect_found Returns
  expect_found-Keeps t none s = tt
  expect_found-Keeps t (some u) s =
      Returns-if (λ s'. length s'.tokens ≤ length s.tokens) (same_token u t) _ _
        (λ _. advance-length s) (λ _. tt)

  pub expect-Keeps :
      (t : Token P) (s : Parser P)
      → Returns (λ s'. length s'.tokens ≤ length s.tokens) (expect L t s)
  unfolding expect
  expect-Keeps t s = expect_found-Keeps t (peek s) s

  identifier_at-Keeps :
      (o : Option (Token P)) (s : Parser P)
      → Returns (Keeps (length s.tokens)) (identifier_at L o s)
  unfolding identifier_at unexpected Returns Keeps
  identifier_at-Keeps (some (Token.identifier name)) s = advance-length s
  identifier_at-Keeps _ s = tt

  pub parse_identifier-Keeps :
      (s : Parser P) → Returns (Keeps (length s.tokens)) (parse_identifier L s)
  unfolding parse_identifier
  parse_identifier-Keeps s = identifier_at-Keeps (peek s) s

  identifier_at-Takes :
      (us : List (Token P)) (ps : List Position) (e : Position)
      → Returns
          (λ r. length r.1.tokens < length us)
          (identifier_at L (head? us) (record { tokens = us; positions = ps; end_position = e }))
  unfolding identifier_at unexpected Returns advance
  identifier_at-Takes [] ps e = tt
  identifier_at-Takes (Token.identifier name ∷ us) ps e = omega arith
  identifier_at-Takes (_ ∷ us) ps e = tt

  -- An identifier is taken.
  pub parse_identifier-Takes :
      (s : Parser P) → Returns (λ r. length r.1.tokens < length s.tokens) (parse_identifier L s)
  unfolding parse_identifier
  parse_identifier-Takes s = identifier_at-Takes s.tokens s.positions s.end_position

  literal_at-Keeps :
      (o : Option (Token P)) (s : Parser P) → Returns (Keeps (length s.tokens)) (literal_at L o s)
  unfolding literal_at unexpected Returns Keeps
  literal_at-Keeps (some (Token.string_literal v)) s = advance-length s
  literal_at-Keeps _ s = tt

  pub parse_string_literal-Keeps :
      (s : Parser P) → Returns (Keeps (length s.tokens)) (parse_string_literal L s)
  unfolding parse_string_literal
  parse_string_literal-Keeps s = literal_at-Keeps (peek s) s

  numeral_at-Keeps :
      (o : Option (Token P)) (s : Parser P) → Returns (Keeps (length s.tokens)) (numeral_at L o s)
  unfolding numeral_at unexpected Returns Keeps
  numeral_at-Keeps (some (Token.number_literal v)) s = advance-length s
  numeral_at-Keeps _ s = tt

  pub parse_number_literal-Keeps :
      (s : Parser P) → Returns (Keeps (length s.tokens)) (parse_number_literal L s)
  unfolding parse_number_literal
  parse_number_literal-Keeps s = numeral_at-Keeps (peek s) s
