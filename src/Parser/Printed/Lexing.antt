-- ===== src/Parser/Printed/Lexing.antt =====
-- How the lexer of src/parser.rs goes on: over white space, and over one token.
use policyai.Prelude.{
  ℕ, zero, suc, ◌≤◌, ◌≡◌, refl, ap, Text, true, false, List, [], ◌∷◌, length, arith,
}
use policyai.Json.{Platform}
use policyai.Parser.{Lexical, Position, Token, ok}
use policyai.Parser.Lexer.{advanced, next_token, skip_whitespace, tokenize_at, tokenize_from}
use policyai.Parser.Printed.{Lexes}

module _ {P : Platform} (L : Lexical P) where
  pub Lexes-nil : Lexes L [] []
  unfolding Lexes tokenize_from skip_whitespace tokenize_at
  Lexes-nil zero p h = absurd (omega arith)
  Lexes-nil (suc fuel) p h = ([], refl, refl)

  pub Lexes-blank :
      (c : ℕ) (us : List (Token P)) (s : Text)
      → L.is_whitespace c ≡ true
      → Lexes L us s
      → Lexes L us (c ∷ s)
  unfolding Lexes tokenize_from skip_whitespace
  Lexes-blank c us s w h zero p l = absurd (omega arith)
  Lexes-blank c us s w h (suc fuel) p l = rw w (h (suc fuel) (advanced c p) (omega arith))

  -- The token is read from the character and what follows it, wherever it stands.
  unfoldable pub Reads : ℕ → Text → Token P → Text → Type 0
  Reads c s t s' =
      (p : Position)
      → (q : Position) × (next_token L c s p ≡ ok (t, record { input = s'; position = q }))

  pub Lexes-token :
      (c : ℕ) (s s' : Text) (t : Token P) (us : List (Token P))
      → L.is_whitespace c ≡ false
      → Reads c s t s'
      → length s' ≤ length s
      → Lexes L us s'
      → Lexes L (t ∷ us) (c ∷ s)
  unfolding Lexes Reads tokenize_from skip_whitespace tokenize_at
  Lexes-token c s s' t us w r k h zero p l = absurd (omega arith)
  Lexes-token c s s' t us w r k h (suc fuel) p l =
      let (q, e) = r p in
      let (ts, run, tokens) = h fuel q (omega arith) in
      ((t, p) ∷ ts, rw (w, e, run), ap (λ us. t ∷ us) tokens)
