-- ===== src/Format.antt =====
-- What the sources use of the standard formatter and of `str::replace`.
use policyai.Prelude.{
  ◌≡◌, refl, ℕ, zero, suc, ◌+◌, ◌-◌, ◌/◌, ◌%◌, Text, text, Bool, true, false, ◌&&◌, ◌||◌, [], ◌∷◌,
  ◌++◌, length, ltb, ◌==◌, if◌then◌else◌,
}
use policyai.Json.{Platform}

-- the digits of a number to a base, most significant first; `fuel` bounds their count
digits_to : (ℕ → ℕ) → ℕ → ℕ → ℕ → Text → Text
digits_to digit base zero n out = out
digits_to digit base (suc fuel) n out =
    let out' = digit (n % base) ∷ out in
    let rest = digits_to digit base fuel (n / base) out' in if n / base == 0 then out' else rest

-- `{n}`; a number has no more digits than its value, plus one for zero
unfoldable pub decimal : ℕ → Text
unfolding digits_to
decimal n = digits_to (λ d. b'0' + d) 10 (suc n) n []

hex_digit : ℕ → ℕ
hex_digit d = if ltb d 10 then b'0' + d else b'a' + d - 10

-- `\u{..}`; a code point has at most six digits
unicode_escape : ℕ → Text
unfolding digits_to hex_digit
unicode_escape c = text "\\u{" ++ digits_to hex_digit 16 6 c [] ++ text "}"

-- `char::escape_debug` as the formatter of `str` calls it
unfoldable pub escape_debug : Platform → ℕ → Text
unfolding unicode_escape
escape_debug P c =
    if c == 0
    then text "\\0"
    else if c == b'\t'
    then text "\\t"
    else if c == 0xd
    then text "\\r"
    else if c == b'\n'
    then text "\\n"
    else if c == b'"' || c == b'\\'
    then b'\\' ∷ c ∷ []
    else if P.is_printed c
    then c ∷ []
    else unicode_escape c

unfoldable pub escape_all : Platform → Text → Text
unfolding escape_debug
escape_all P [] = []
escape_all P (c ∷ s) = escape_debug P c ++ escape_all P s

-- `{s:?}`
unfoldable pub debug : Platform → Text → Text
unfolding escape_all
debug P s = b'"' ∷ (escape_all P s ++ b'"' ∷ [])

unfoldable pub starts_with : Text → Text → Bool
starts_with [] t = true
starts_with (c ∷ s) [] = false
starts_with (c ∷ s) (d ∷ t) = c == d && starts_with s t

-- the rest of the text, of which the first `skip` characters belong to a match that was replaced
replace_from : Text → Text → ℕ → Text → Text
replace_from pattern to skip [] = []
replace_from pattern to (suc skip) (c ∷ s) = replace_from pattern to skip s
replace_from pattern to zero (c ∷ s) = elim (starts_with pattern (c ∷ s)) [
  | true ↦ to ++ replace_from pattern to (length pattern - 1) s
  | false ↦ c ∷ replace_from pattern to zero s
]

-- `s.replace(pattern, to)` for a pattern that is not empty
unfoldable pub replace : Text → Text → Text → Text
unfolding replace_from starts_with
replace s pattern to = replace_from pattern to zero s

replace_runs : replace (text "a\"x\"b\"x\"") (text "\"x\"") (text "yy") ≡ text "ayybyy"
unfolding replace text
replace_runs = refl

decimal_runs : decimal 120 ≡ text "120"
unfolding decimal text
decimal_runs = refl
