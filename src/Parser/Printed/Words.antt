-- ===== src/Parser/Printed/Words.antt =====
-- How the lexer reads white space, signs and words.
use policyai.Prelude.{
  ℕ, ◌<◌, ◌≡◌, refl, sym, Text, true, false, ◌||◌, List, [], ◌∷◌, ◌++◌, ◌==◌, length-append, arith,
  All, inl, inr, ◌⊎◌, ==_iff, Bool-cases, or-cases,
}
use policyai.Json.{Platform}
use policyai.Parser.{
  Lexical, Position, Token, left_brace, right_brace, left_bracket, right_bracket, colon, comma,
  equals, at_sign, double_colon,
}
use policyai.Parser.Lexer.{
  advanced, is_ascii_digit, is_word, keyword, next_token, read_identifier, colon_or_double,
}
use policyai.Parser.Printed.{IsUnicode, IsWord, Lexes, is_ascii_letter, is_start}
use policyai.Parser.Printed.Lexing.{Reads, Lexes-blank, Lexes-token}

digit-ascii :
    (c : ℕ)
    → is_ascii_digit c ≡ true
    → (c < 128) × (is_ascii_letter c ≡ false) × ((c == b'_') ≡ false)
unfolding is_ascii_digit is_ascii_letter
digit-ascii c h = (ground arith, ground arith, ground arith)

module _ {P : Platform} {L : Lexical P} (U : IsUnicode L) where
  pub Lexes-space : (us : List (Token P)) (s : Text) → Lexes L us s → Lexes L us (b' ' ∷ s)
  Lexes-space us s = Lexes-blank L b' ' us s (U.whitespace_ascii b' ' (omega arith))

  pub Lexes-newline : (us : List (Token P)) (s : Text) → Lexes L us s → Lexes L us (b'\n' ∷ s)
  Lexes-newline us s = Lexes-blank L b'\n' us s (U.whitespace_ascii b'\n' (omega arith))

  -- a sign of one character, whatever follows it
  Lexes-sign :
      (c : ℕ) (t : Token P) (us : List (Token P)) (s : Text)
      → L.is_whitespace c ≡ false
      → Reads L c s t s
      → Lexes L us s
      → Lexes L (t ∷ us) (c ∷ s)
  Lexes-sign c t us s w r = Lexes-token L c s s t us w r (omega arith)

  pub Lexes-left_brace :
      (us : List (Token P)) (s : Text) → Lexes L us s → Lexes L (left_brace ∷ us) (b'{' ∷ s)
  unfolding Reads next_token is_ascii_digit
  Lexes-left_brace us s =
      Lexes-sign b'{' left_brace us s (U.whitespace_ascii b'{' (omega arith)) (λ p. (_, refl))

  pub Lexes-comma :
      (us : List (Token P)) (s : Text) → Lexes L us s → Lexes L (comma ∷ us) (b',' ∷ s)
  unfolding Reads next_token is_ascii_digit
  Lexes-comma us s =
      Lexes-sign b',' comma us s (U.whitespace_ascii b',' (omega arith)) (λ p. (_, refl))

  pub Lexes-right_brace :
      (us : List (Token P)) (s : Text) → Lexes L us s → Lexes L (right_brace ∷ us) (b'}' ∷ s)
  unfolding Reads next_token is_ascii_digit
  Lexes-right_brace us s =
      Lexes-sign b'}' right_brace us s (U.whitespace_ascii b'}' (omega arith)) (λ p. (_, refl))

  pub Lexes-left_bracket :
      (us : List (Token P)) (s : Text) → Lexes L us s → Lexes L (left_bracket ∷ us) (b'[' ∷ s)
  unfolding Reads next_token is_ascii_digit
  Lexes-left_bracket us s =
      Lexes-sign b'[' left_bracket us s (U.whitespace_ascii b'[' (omega arith)) (λ p. (_, refl))

  pub Lexes-right_bracket :
      (us : List (Token P)) (s : Text) → Lexes L us s → Lexes L (right_bracket ∷ us) (b']' ∷ s)
  unfolding Reads next_token is_ascii_digit
  Lexes-right_bracket us s =
      Lexes-sign b']' right_bracket us s (U.whitespace_ascii b']' (omega arith)) (λ p. (_, refl))

  pub Lexes-equals :
      (us : List (Token P)) (s : Text) → Lexes L us s → Lexes L (equals ∷ us) (b'=' ∷ s)
  unfolding Reads next_token is_ascii_digit
  Lexes-equals us s =
      Lexes-sign b'=' equals us s (U.whitespace_ascii b'=' (omega arith)) (λ p. (_, refl))

  pub Lexes-at_sign :
      (us : List (Token P)) (s : Text) → Lexes L us s → Lexes L (at_sign ∷ us) (b'@' ∷ s)
  unfolding Reads next_token is_ascii_digit
  Lexes-at_sign us s =
      Lexes-sign b'@' at_sign us s (U.whitespace_ascii b'@' (omega arith)) (λ p. (_, refl))

  -- a colon and a space
  pub Lexes-colon :
      (us : List (Token P)) (s : Text) → Lexes L us s → Lexes L (colon ∷ us) (b':' ∷ b' ' ∷ s)
  unfolding Reads next_token is_ascii_digit colon_or_double
  Lexes-colon us s h =
      Lexes-sign b':' colon us (b' ' ∷ s) (U.whitespace_ascii b':' (omega arith)) (λ p. (_, refl))
        (Lexes-space us s h)

  pub Lexes-double_colon :
      (us : List (Token P)) (s : Text)
      → Lexes L us s
      → Lexes L (double_colon ∷ us) (b':' ∷ b':' ∷ s)
  unfolding Reads next_token is_ascii_digit colon_or_double
  Lexes-double_colon us s =
      Lexes-token L b':' (b':' ∷ s) s double_colon us (U.whitespace_ascii b':' (omega arith))
        (λ p. (_, refl)) (omega arith)

  -- A word ends before the text.
  unfoldable pub IsBreak : Text → Type 0
  IsBreak [] = Unit
  IsBreak (c ∷ s) = is_word L c ≡ false

  -- an identifier is read up to its end
  read_identifier-append :
      (w s : Text) (p : Position)
      → All (λ d. is_word L d ≡ true) w
      → IsBreak s
      → (q : Position) × (read_identifier L (w ++ s) p ≡ (w, record { input = s; position = q }))
  unfolding read_identifier IsBreak
  read_identifier-append [] [] p h b = (p, refl)
  read_identifier-append [] (c ∷ s) p h b = (p, rw b refl)
  read_identifier-append (d ∷ w) s p h b =
      let (q, e) = read_identifier-append w s (advanced d p) h.1 b in (q, rw (h.0, e))

  -- A sign of ASCII that is no letter and no underscore does not begin a word.
  start-differs :
      (c d : ℕ)
      → is_start L c ≡ true
      → d < 128
      → is_ascii_letter d ≡ false
      → (d == b'_') ≡ false
      → (c == d) ≡ false
  unfolding is_start
  start-differs c d h l a u = elim (Bool-cases (c == d)) [
    | inr e ↦ e
    | inl e ↦
        let e' = (==_iff c d).0 e in
        let k : is_start L d ≡ true = rw (sym e') h in
        let m : is_start L d ≡ false = rw (U.alphabetic_ascii d l, a, u) in cc
  ]

  start-not_digit : (c : ℕ) → is_start L c ≡ true → is_ascii_digit c ≡ false
  unfolding is_start
  start-not_digit c h = elim (Bool-cases (is_ascii_digit c)) [
    | inr e ↦ e
    | inl e ↦
        let (l, a, u) = digit-ascii c e in
        let m : is_start L c ≡ false = rw (U.alphabetic_ascii c l, a, u) in cc
  ]

  start-cases : (c : ℕ) → is_start L c ≡ true → (L.is_alphabetic c ≡ true) ⊎ (c ≡ b'_')
  unfolding is_start
  start-cases c h = elim (or-cases (L.is_alphabetic c) (c == b'_') h) [
    | inl e ↦ inl e
    | inr e ↦ inr ((==_iff c b'_').0 e)
  ]

  start-word : (c : ℕ) → is_start L c ≡ true → is_word L c ≡ true
  unfolding is_word is_ascii_letter is_ascii_digit
  start-word c h = elim (start-cases c h) [
    | inl e ↦ rw (U.alphabetic_alphanumeric c e)
    | inr e ↦ rw (e, U.alphanumeric_ascii b'_' (omega arith))
  ]

  start-not_blank : (c : ℕ) → is_start L c ≡ true → L.is_whitespace c ≡ false
  start-not_blank c h = elim (start-cases c h) [
    | inl e ↦ U.alphanumeric_whitespace c (U.alphabetic_alphanumeric c e)
    | inr e ↦ rw (e, U.whitespace_ascii b'_' (omega arith))
  ]

  -- a word, where the text that follows does not go on with it
  pub Lexes-word :
      (w : Text) (us : List (Token P)) (s : Text)
      → IsWord L w
      → IsBreak s
      → Lexes L us s
      → Lexes L (keyword L w ∷ us) (w ++ s)
  unfolding IsWord Reads next_token is_start is_ascii_letter
  Lexes-word [] us s h b k = elim h [ ]
  Lexes-word (c ∷ w) us s h b k =
      let d = start-differs c in
      Lexes-token L c (w ++ s) s (keyword L (c ∷ w)) us (start-not_blank c h.0)
        (λ p.
          let (q, e) = read_identifier-append (c ∷ w) s p (start-word c h.0, h.1) b in
          let a : (L.is_alphabetic c || c == b'_') ≡ true = h.0 in
          (
            q,
            rw (
              d b'"' h.0 (omega arith) refl refl,
              d b'-' h.0 (omega arith) refl refl,
              start-not_digit c h.0,
              d b'{' h.0 (omega arith) refl refl,
              d b'}' h.0 (omega arith) refl refl,
              d b'[' h.0 (omega arith) refl refl,
              d b']' h.0 (omega arith) refl refl,
              d b':' h.0 (omega arith) refl refl,
              d b',' h.0 (omega arith) refl refl,
              d b'=' h.0 (omega arith) refl refl,
              d b'@' h.0 (omega arith) refl refl,
              a,
              e,
            ),
          ))
        (omega (arith, length-append w s)) k
