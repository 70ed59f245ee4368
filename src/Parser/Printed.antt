-- ===== src/Parser/Printed.antt =====
-- What is needed of a policy type for its `Display` to be read back: the conditions on names, strings
-- and numbers, and the tokens of a text, whatever their positions.
pub mod Lexing
pub mod Words
pub mod Literals
pub mod Tokens
pub mod Suffixes
pub mod Lengths
pub mod Parts
pub mod Displayed
pub mod Reading
use policyai.Prelude.{
  ℕ, ◌<◌, ◌≡◌, ◌≢◌, Text, contains, Bool, true, false, not, ◌&&◌, ◌||◌, Option, none, some, List,
  [], ◌∷◌, map, leb, ◌==◌, length, All,
}
use policyai.Json.{Platform}
use policyai.Field
use policyai.Field.{Field}
use policyai.PolicyType.{PolicyType}
use policyai.Parser.{Lexical, Position, Token, identifier, ok}
use policyai.Parser.Lexer.{is_ascii_digit, is_word, keyword, tokenize_from}
use policyai.Parser.Fields.{join}

unfoldable pub is_ascii_letter : ℕ → Bool
is_ascii_letter c = leb b'a' c && leb c b'z' || leb b'A' c && leb c b'Z'

-- The documented behaviour of the tests on characters: what they are on ASCII, and how they are
-- related on all characters.
pub record IsUnicode {P : Platform} (L : Lexical P) : Type 0 where
  pub whitespace_ascii : (c : ℕ) → c < 128 → L.is_whitespace c ≡ (c == b' ' || leb 9 c && leb c 13)
  pub alphabetic_ascii : (c : ℕ) → c < 128 → L.is_alphabetic c ≡ is_ascii_letter c
  pub alphanumeric_ascii :
      (c : ℕ) → c < 128 → L.is_alphanumeric c ≡ (is_ascii_letter c || is_ascii_digit c)
  pub alphabetic_alphanumeric : (c : ℕ) → L.is_alphabetic c ≡ true → L.is_alphanumeric c ≡ true
  pub alphanumeric_whitespace : (c : ℕ) → L.is_alphanumeric c ≡ true → L.is_whitespace c ≡ false

-- after a sign: digits and at most one point, none if there is one before
unfoldable pub numeral_rest : Bool → Text → Bool
numeral_rest point [] = true
numeral_rest point (c ∷ s) =
    (is_ascii_digit c || (c == b'.' && not point)) && numeral_rest (point || c == b'.') s

-- the form in which a finite `f64` is printed
unfoldable pub is_numeral : Text → Bool
is_numeral [] = false
is_numeral (c ∷ s) = (c == b'-' || is_ascii_digit c) && numeral_rest false s

-- a character that `{:?}` prints as it stands or after a backslash
unfoldable pub is_plain : Platform → ℕ → Bool
is_plain P c =
    (c == b'"' || c == b'\\')
    || (P.is_printed c && not (c == 0 || c == b'\t' || c == 0xd || c == b'\n'))

unfoldable pub IsPlain : Platform → Text → Type 0
IsPlain P s = All (λ c. is_plain P c ≡ true) s

unfoldable pub AllPlain : Platform → Option Text → Type 0
AllPlain P none = Unit
AllPlain P (some s) = IsPlain P s

module _ {P : Platform} (L : Lexical P) where
  -- a character with which an identifier begins
  unfoldable pub is_start : ℕ → Bool
  is_start c = L.is_alphabetic c || c == b'_'

  unfoldable pub IsWord : Text → Type 0
  IsWord [] = ⊥
  IsWord (c ∷ s) = (is_start c ≡ true) × All (λ d. is_word L d ≡ true) s

  -- a word that is not a keyword
  unfoldable pub IsIdentifier : Text → Type 0
  IsIdentifier s = IsWord s × (keyword L s ≡ identifier s)

  -- a number that is printed as a numeral, which stands for it
  unfoldable pub IsReadable : Option P.F64 → Type 0
  IsReadable none = Unit
  IsReadable (some d) =
      (is_numeral (L.display_f64 d) ≡ true) × (L.parse_f64 (L.display_f64 d) ≡ some d)

  unfoldable pub IsPrintable : Field P → Type 0
  IsPrintable (Field.bool name d c) = IsIdentifier name
  IsPrintable (Field.string name d c) = IsIdentifier name × AllPlain P d
  IsPrintable (Field.string_enum name values d c) =
      IsIdentifier name × (values ≢ []) × All (IsPlain P) values × AllPlain P d
  IsPrintable (Field.string_array name) = IsIdentifier name
  IsPrintable (Field.number name d c) = IsIdentifier name × IsReadable d

  -- The fields have names that differ from each other and from those seen.
  unfoldable pub IsFresh : List Text → List (Field P) → Type 0
  IsFresh seen [] = Unit
  IsFresh seen (f ∷ fs) = (contains seen (Field.name f) ≡ false) × IsFresh (Field.name f ∷ seen) fs

  -- The name is one or more identifiers joined by `::`, the fields are printable, and no two have the
  -- same name.
  pub record IsDisplayable (t : PolicyType P) : Type 0 where
    pub parts : List Text
    pub parts_identifiers : All IsIdentifier parts
    pub parts_not_empty : parts ≢ []
    pub name_join : t.name ≡ join parts
    pub fields_printable : All IsPrintable t.fields
    pub fields_fresh : IsFresh [] t.fields

  -- The text is read as these tokens, wherever it stands and whatever the fuel beyond its length.
  unfoldable pub Lexes : List (Token P) → Text → Type 0
  Lexes us s =
      (fuel : ℕ) (p : Position)
      → length s < fuel
      → (ts : List (Token P × Position)) × (tokenize_from L fuel s p ≡ ok ts)
        × (map (λ t. t.0) ts ≡ us)
