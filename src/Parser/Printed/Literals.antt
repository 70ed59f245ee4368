-- ===== src/Parser/Printed/Literals.antt =====
-- How the lexer reads the strings that `{:?}` prints, and numerals.
use policyai.Prelude.{
  ℕ, ◌<◌, ◌≡◌, refl, ◌∙◌, Text, Bool, true, false, not, ◌&&◌, ◌||◌, List, [], ◌∷◌, ◌++◌, leb, ◌==◌,
  length-append, append_assoc, append-nil, arith, inl, inr, ◌⊎◌, ==_iff, Bool-cases, or-cases,
  and-cases, or-false, not-true, or-right, some,
}
use policyai.Json.{Platform}
use policyai.Format.{debug, escape_all, escape_debug}
use policyai.Parser.{Lexical, Position, Token, ok, string_literal, number_literal}
use policyai.Parser.Lexer.{
  advanced, is_ascii_digit, next_token, read_characters, read_digits, read_numeral, read_number,
  number_of,
}
use policyai.Parser.Printed.{
  IsUnicode, IsPlain, IsReadable, Lexes, is_plain, is_numeral, numeral_rest,
}
use policyai.Parser.Printed.Lexing.{Reads, Lexes-token}

module _ (P : Platform) where
  -- A plain character is printed after a backslash or as it stands.
  escape_debug-cases :
      (c : ℕ)
      → is_plain P c ≡ true
      → ((escape_debug P c ≡ b'\\' ∷ c ∷ []) × ((c == b'"' || c == b'\\') ≡ true))
        ⊎ ((escape_debug P c ≡ c ∷ []) × ((c == b'"') ≡ false) × ((c == b'\\') ≡ false))
  unfolding is_plain escape_debug
  escape_debug-cases c h = elim (Bool-cases (c == b'"' || c == b'\\')) [
    | inl e ↦ inl (elim (or-cases (c == b'"') (c == b'\\') e) [
      | inl q ↦ (rw ((==_iff c b'"').0 q) refl, e)
      | inr q ↦ (rw ((==_iff c b'\\').0 q) refl, e)
    ])
    | inr e ↦
        let quotes = or-false (c == b'"') (c == b'\\') e in
        let printed =
          and-cases (P.is_printed c) (not (c == 0 || c == b'\t' || c == 0xd || c == b'\n'))
            (or-right _ _ e h) in
        let (o1, n) =
          or-false (c == 0 || c == b'\t' || c == 0xd) (c == b'\n') (not-true _ printed.1) in
        let (o2, r) = or-false (c == 0 || c == b'\t') (c == 0xd) o1 in
        let (z, t) = or-false (c == 0) (c == b'\t') o2 in
        inr (rw (z, t, r, n, e, printed.0), quotes.0, quotes.1)
  ]

  -- The escapes are undone up to the closing quote.
  read_characters-escape_all :
      (p0 : Position) (result v s : Text) (p : Position)
      → IsPlain P v
      → (q : Position) × (read_characters p0 false result (escape_all P v ++ b'"' ∷ s) p
          ≡ ok (result ++ v, record { input = s; position = q }))
  unfolding IsPlain escape_all read_characters
  read_characters-escape_all p0 result [] s p h = (advanced b'"' p, rw (append-nil result))
  read_characters-escape_all p0 result (c ∷ v) s p h = elim (escape_debug-cases c h.0) [
    | inl e ↦
        (let (q, k) =
            read_characters-escape_all p0 (result ++ c ∷ []) v s (advanced c (advanced b'\\' p))
              h.1 in
          (q, rw (e.0, e.1, k, append_assoc result (c ∷ []) v)))
    | inr e ↦
        (let (q, k) = read_characters-escape_all p0 (result ++ c ∷ []) v s (advanced c p) h.1 in
          (q, rw (e.0, read_characters, e.2, e.1, k, append_assoc result (c ∷ []) v)))
  ]

digit-no_point : (c : ℕ) → is_ascii_digit c ≡ true → (c == b'.') ≡ false
unfolding is_ascii_digit
digit-no_point c h = ground arith

-- the character with which a numeral begins
numeral_start :
    (c : ℕ)
    → (c == b'-' || is_ascii_digit c) ≡ true
    → (c < 128) × ((c == b' ' || leb 9 c && leb c 13) ≡ false) × ((c == b'"') ≡ false)
unfolding is_ascii_digit
numeral_start c h = (ground arith, ground arith, ground arith)

-- A text goes on with no digit and no point.
unfoldable pub IsNumeralEnd : Text → Type 0
IsNumeralEnd [] = Unit
IsNumeralEnd (c ∷ s) = (is_ascii_digit c ≡ false) × ((c == b'.') ≡ false)

-- The digits are read up to their end.
read_digits-append :
    (point : Bool) (t s : Text) (p : Position)
    → numeral_rest point t ≡ true
    → IsNumeralEnd s
    → (q : Position) × (read_digits point (t ++ s) p ≡ (t, record { input = s; position = q }))
unfolding numeral_rest read_digits IsNumeralEnd
read_digits-append point [] [] p h e = (p, refl)
read_digits-append point [] (c ∷ s) p h e = (p, rw (e.0, e.1))
read_digits-append point (c ∷ t) s p h e =
    let (d, r) =
      and-cases (is_ascii_digit c || (c == b'.' && not point)) (numeral_rest (point || c == b'.') t)
        h in
    let (q, k) = read_digits-append (point || c == b'.') t s (advanced c p) r e in (q, rw (d, k))

-- A numeral is read up to its end.
read_numeral-append :
    (t s : Text) (p : Position)
    → is_numeral t ≡ true
    → IsNumeralEnd s
    → (q : Position) × (read_numeral (t ++ s) p ≡ (t, record { input = s; position = q }))
unfolding is_numeral numeral_rest read_numeral
read_numeral-append [] s p h e = absurd (cc)
read_numeral-append (c ∷ t) s p h e =
    let (d, r) = and-cases (c == b'-' || is_ascii_digit c) (numeral_rest false t) h in
    elim (Bool-cases (c == b'-')) [
      | inl m ↦ (let (q, k) = read_digits-append false t s (advanced c p) r e in (q, rw (m, k)))
      | inr m ↦
          let digit = or-right (c == b'-') (is_ascii_digit c) m d in
          let rest : numeral_rest false (c ∷ t) ≡ true = rw (digit, digit-no_point c digit, r) in
          (let (q, k) = read_digits-append false (c ∷ t) s p rest e in (q, rw (m, k)))
    ]

module _ {P : Platform} {L : Lexical P} (U : IsUnicode L) where
  -- a string that was printed by `{:?}`
  pub Lexes-debug :
      (v : Text) (us : List (Token P)) (s : Text)
      → IsPlain P v
      → Lexes L us s
      → Lexes L (string_literal v ∷ us) (debug P v ++ s)
  unfolding Reads next_token debug
  Lexes-debug v us s h =
      Lexes-token L b'"' ((escape_all P v ++ b'"' ∷ []) ++ s) s (string_literal v) us
        (U.whitespace_ascii b'"' (omega arith))
        (λ p.
          let (q, e) = read_characters-escape_all P p [] v s (advanced b'"' p) h in
          (q, rw (append_assoc (escape_all P v) (b'"' ∷ []) s, e)))
        (omega (arith, length-append (escape_all P v ++ b'"' ∷ []) s))

  Lexes-numeral :
      (t : Text) (d : P.F64) (us : List (Token P)) (s : Text)
      → is_numeral t ≡ true
      → L.parse_f64 t ≡ some d
      → IsNumeralEnd s
      → Lexes L us s
      → Lexes L (number_literal d ∷ us) (t ++ s)
  unfolding is_numeral Reads next_token read_number number_of
  Lexes-numeral [] d us s h n e k = absurd (cc)
  Lexes-numeral (c ∷ t) d us s h n e k =
      let (b, r) = and-cases (c == b'-' || is_ascii_digit c) (numeral_rest false t) h in
      let (l, w, q) = numeral_start c b in
      Lexes-token L c (t ++ s) s (number_literal d) us (U.whitespace_ascii c l ∙ w)
        (λ p. let (end, read) = read_numeral-append (c ∷ t) s p h e in (end, rw (q, b, read, n)))
        (omega (arith, length-append t s)) k

  -- a number that was printed
  pub Lexes-number :
      (d : P.F64) (us : List (Token P)) (s : Text)
      → IsReadable L (some d)
      → IsNumeralEnd s
      → Lexes L us s
      → Lexes L (number_literal d ∷ us) (L.display_f64 d ++ s)
  unfolding IsReadable
  Lexes-number d us s h e k = Lexes-numeral (L.display_f64 d) d us s h.0 h.1 e k
