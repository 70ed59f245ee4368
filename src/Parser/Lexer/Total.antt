-- ===== src/Parser/Lexer/Total.antt =====
-- The lexer of src/parser.rs ends: every token takes a character at least.
use policyai.Prelude.{
  ℕ, zero, suc, ◌≤◌, ◌<◌, ◌≡◌, Text, Bool, true, false, not, ◌&&◌, ◌||◌, Option, none, some, List,
  [], ◌∷◌, ◌++◌, ◌==◌, if◌then◌else◌, length, Bool-cases, or-right, or-intro, arith, inl, inr,
}
use policyai.Json.{Platform}
use policyai.Parser.{Lexical, Position, Token, Parsed, ok, string_literal}
use policyai.Parser.Returns.{Returns, Returns-imp, Returns-if, Returns-elim, Returns-bind}
use policyai.Parser.Printed.{IsUnicode}
use policyai.Parser.Lexer.{
  Lexer, advanced, start, is_ascii_digit, is_word, read_characters, read_digits, read_numeral,
  skip_whitespace, read_identifier, number_of, read_number, colon_or_double, next_token,
  tokenize_at, tokenize_from, tokenize,
}

-- No more is left of the input than so many characters.
unfoldable pub Leaves {ℓ} : {A : Type ℓ} → ℕ → A × Lexer → Type 0
Leaves n r = length r.1.input ≤ n

Leaves-suc {ℓ} :
    {A : Type ℓ} (n : ℕ) (r : Parsed (A × Lexer))
    → Returns (Leaves n) r
    → Returns (Leaves (suc n)) r
unfolding Leaves
Leaves-suc n r = Returns-imp (Leaves n) (Leaves (suc n)) r (λ a h. omega arith)

read_characters-Leaves :
    (p0 : Position) (escaped : Bool) (result s : Text) (p : Position)
    → Returns (Leaves (length s)) (read_characters p0 escaped result s p)
unfolding read_characters Returns Leaves
read_characters-Leaves p0 escaped result [] p = tt
read_characters-Leaves p0 true result (c ∷ s) p =
    let more = read_characters p0 false (result ++ c ∷ []) s (advanced c p) in
    Returns-if (Leaves (suc (length s))) (c == b'"' || c == b'\\') more _
      (λ _.
        Leaves-suc (length s) more
          (read_characters-Leaves p0 false (result ++ c ∷ []) s (advanced c p)))
      (λ _. tt)
read_characters-Leaves p0 false result (c ∷ s) p =
    let more = read_characters p0 true result s (advanced c p) in
    let next = read_characters p0 false (result ++ c ∷ []) s (advanced c p) in
    let n = suc (length s) in
    let end : Parsed (Text × Lexer) = ok (result, record { input = s; position = advanced c p }) in
    Returns-elim (Leaves n) (c == b'\\') more (elim (c == b'"') [ true ↦ end | false ↦ next ])
      (Leaves-suc (length s) more (read_characters-Leaves p0 true result s (advanced c p)))
      (Returns-elim (Leaves n) (c == b'"') end next (omega arith) (
        Leaves-suc (length s) next
          (read_characters-Leaves p0 false (result ++ c ∷ []) s (advanced c p))))

length-if {ℓ} :
    {A : Type ℓ} (b : Bool) (r t : A × Lexer) (n : ℕ)
    → length r.1.input ≤ n
    → length t.1.input ≤ n
    → length (if b then r else t).1.input ≤ n
length-if true r t n h k = h
length-if false r t n h k = k

read_digits-length :
    (point : Bool) (s : Text) (p : Position) → length (read_digits point s p).1.input ≤ length s
unfolding read_digits
read_digits-length point [] p = omega arith
read_digits-length point (c ∷ s) p =
    length-if (is_ascii_digit c || (c == b'.' && not point)) _ _ _
      (omega (arith, read_digits-length (point || c == b'.') s (advanced c p))) (omega arith)

-- A digit or a sign is read at least.
read_numeral-length :
    (c : ℕ) (s : Text) (p : Position)
    → (c == b'-' || is_ascii_digit c) ≡ true
    → length (read_numeral (c ∷ s) p).1.input ≤ length s
unfolding read_numeral read_digits
read_numeral-length c s p h = elim (Bool-cases (c == b'-')) [
  | inl e ↦ rw e (read_digits-length false s (advanced c p))
  | inr e ↦
      rw (e, or-right (c == b'-') (is_ascii_digit c) e h)
        (read_digits-length (c == b'.') s (advanced c p))
]

module _ {P : Platform} (L : Lexical P) where
  skip_whitespace-length :
      (s : Text) (p : Position) → length (skip_whitespace L s p).input ≤ length s
  unfolding skip_whitespace
  skip_whitespace-length [] p = omega arith
  skip_whitespace-length (c ∷ s) p = elim (Bool-cases (L.is_whitespace c)) [
    | inl e ↦ rw e (omega (arith, skip_whitespace-length s (advanced c p)))
    | inr e ↦ rw e (omega arith)
  ]

  read_identifier-length :
      (s : Text) (p : Position) → length (read_identifier L s p).1.input ≤ length s
  unfolding read_identifier
  read_identifier-length [] p = omega arith
  read_identifier-length (c ∷ s) p =
      length-if (is_word L c) _ _ _ (omega (arith, read_identifier-length s (advanced c p)))
        (omega arith)

  number_of-Leaves :
      (n : ℕ) (p : Position) (read : Text × Lexer) (o : Option P.F64)
      → length read.1.input ≤ n
      → Returns (Leaves n) (number_of L p read o)
  unfolding number_of Returns Leaves
  number_of-Leaves n p read none h = tt
  number_of-Leaves n p read (some d) h = h

  read_number-Leaves :
      (c : ℕ) (s : Text) (p : Position)
      → (c == b'-' || is_ascii_digit c) ≡ true
      → Returns (Leaves (length s)) (read_number L (c ∷ s) p)
  unfolding read_number
  read_number-Leaves c s p h =
      let read = read_numeral (c ∷ s) p in
      number_of-Leaves (length s) p read (L.parse_f64 read.0) (read_numeral-length c s p h)

  colon_or_double-length :
      (s : Text) (p : Position) → length (colon_or_double L s p).1.input ≤ length s
  unfolding colon_or_double
  colon_or_double-length [] p = omega arith
  colon_or_double-length (c ∷ s) p = length-if (c == b':') _ _ _ (omega arith) (omega arith)

module _ {P : Platform} {L : Lexical P} (U : IsUnicode L) where
  start-is_word : (c : ℕ) → (L.is_alphabetic c || c == b'_') ≡ true → is_word L c ≡ true
  unfolding is_word
  start-is_word c h = elim (Bool-cases (L.is_alphabetic c)) [
    | inl e ↦ rw (U.alphabetic_alphanumeric c e)
    | inr e ↦
        or-intro (L.is_alphanumeric c) (c == b'_') (or-right (L.is_alphabetic c) (c == b'_') e h)
  ]

  read_word-length :
      (c : ℕ) (s : Text) (p : Position)
      → is_word L c ≡ true
      → length (read_identifier L (c ∷ s) p).1.input ≤ length s
  unfolding read_identifier
  read_word-length c s p h = rw h (read_identifier-length L s (advanced c p))

  -- Every token takes a character.
  next_token-Leaves :
      (c : ℕ) (s : Text) (p : Position) → Returns (Leaves (length s)) (next_token L c s p)
  unfolding next_token Returns Leaves
  next_token-Leaves c s p =
      let Q : Token P × Lexer → Type 0 = Leaves (length s) in
      let read = read_characters p false [] s (advanced c p) in
      Returns-if Q (c == b'"') _ _
        (λ _.
          Returns-bind (Leaves (length s)) Q read (λ read. ok (string_literal read.0, read.1))
            (read_characters-Leaves p false [] s (advanced c p)) (λ _ h. h))
        (λ _. Returns-if Q (c == b'-' || is_ascii_digit c) _ _ (read_number-Leaves L c s p) (λ _.
          Returns-if Q (c == b'{') _ _ (λ _. omega arith)
            (λ _.
              Returns-if Q (c == b'}') _ _ (λ _. omega arith)
                (λ _.
                  Returns-if Q (c == b'[') _ _ (λ _. omega arith)
                    (λ _.
                      Returns-if Q (c == b']') _ _ (λ _. omega arith)
                        (λ _.
                          Returns-if Q (c == b':') _ _
                            (λ _. colon_or_double-length L s (advanced c p))
                            (λ _.
                              Returns-if Q (c == b',') _ _ (λ _. omega arith)
                                (λ _.
                                  Returns-if Q (c == b'=') _ _ (λ _. omega arith)
                                    (λ _.
                                      Returns-if Q (c == b'@') _ _ (λ _. omega arith)
                                        (λ _.
                                          Returns-if Q (L.is_alphabetic c || c == b'_') _ _
                                            (λ h. read_word-length c s p (start-is_word c h))
                                            (λ _. tt)))))))))))

  tokenize_at-Returns :
      (rest : Text → Position → Parsed (List (Token P × Position))) (n : ℕ)
      → ((s : Text) (p : Position) → length s < n → Returns (λ ts. length ts ≤ length s) (rest s p))
      → (s : Text) (p : Position) → length s ≤ n
      → Returns (λ ts. length ts ≤ length s) (tokenize_at L rest s p)
  unfolding tokenize_at Returns Leaves
  tokenize_at-Returns rest n h [] p k = omega arith
  tokenize_at-Returns rest n h (c ∷ s) p k =
      Returns-bind (Leaves (length s)) (λ ts. length ts ≤ length (c ∷ s)) (next_token L c s p) _
        (next_token-Leaves c s p)
        (λ read l.
          Returns-bind (λ ts. length ts ≤ length read.1.input) (λ ts. length ts ≤ length (c ∷ s))
            (rest read.1.input read.1.position) _ (h read.1.input read.1.position (omega arith))
            (λ ts m. omega arith))

  -- with fuel for each character and one more
  tokenize_from-Returns :
      (fuel : ℕ) (s : Text) (p : Position)
      → length s < fuel
      → Returns (λ ts. length ts ≤ length s) (tokenize_from L fuel s p)
  unfolding tokenize_from
  tokenize_from-Returns zero s p h = absurd (omega arith)
  tokenize_from-Returns (suc fuel) s p h =
      let l = skip_whitespace L s p in
      let m = skip_whitespace-length L s p in
      Returns-imp (λ ts. length ts ≤ length l.input) (λ ts. length ts ≤ length s)
        (tokenize_at L (tokenize_from L fuel) l.input l.position) (λ ts k. omega arith)
        (tokenize_at-Returns (tokenize_from L fuel) fuel (tokenize_from-Returns fuel) l.input
          l.position (omega arith))

  -- Where the tests on characters behave as documented, the lexer's loop ends on every input: its fuel
  -- is enough, and where it returns tokens, they are no more than the characters.
  pub tokenize-Returns :
      (input : Text) → Returns (λ ts. length ts ≤ length input) (tokenize L input)
  unfolding tokenize
  tokenize-Returns input = tokenize_from-Returns (suc (length input)) input start (omega arith)
