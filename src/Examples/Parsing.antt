-- ===== src/Examples/Parsing.antt =====
-- The theorems on src/parser.rs at a concrete policy type, and runs of the parser.
use policyai.Prelude.{
  ℕ, ◌+◌, ◌*◌, ◌-◌, ◌≡◌, refl, Text, text, text_eq, contains, true, ◌&&◌, ◌||◌, none, some, [], ◌∷◌,
  leb, ◌==◌, arith,
}
use policyai.Field
use policyai.Field.{Field, OnConflict}
use policyai.PolicyType.{PolicyType}
use policyai.Format.{decimal}
use policyai.Examples.{naturals}
use policyai.Parser.Errors.{display_error}
use policyai.Display.{display_type}
use policyai.Parser.{Lexical, ok, err, invalid_string_literal, unexpected_token}
use policyai.Parser.Lexer.{is_ascii_digit, is_word, keyword}
use policyai.Parser.Fields.{parse, join}
use policyai.Parser.Fields.Sound.{IsSound, parse-IsSound}
use policyai.Parser.Returns.{Returns}
use policyai.Parser.Printed.{
  IsUnicode, IsDisplayable, IsFresh, IsIdentifier, IsPrintable, IsPlain, AllPlain, IsReadable,
  IsWord, is_ascii_letter, is_numeral, numeral_rest, is_plain, is_start,
}
use policyai.Parser.RoundTrip.{parse-display_type}

abbrev value_of : ℕ → Text → ℕ
value_of n [] = n
value_of n (c ∷ s) = value_of (n * 10 + (c - b'0')) s

-- ASCII, with the natural numbers
abbrev ascii : Lexical naturals
ascii = record {
  is_whitespace = λ c. c == b' ' || leb 9 c && leb c 13;
  is_alphabetic = is_ascii_letter;
  is_alphanumeric = λ c. is_ascii_letter c || is_ascii_digit c;
  parse_f64 = λ s. some (value_of 0 s);
  display_f64 = decimal;
}

ascii-IsUnicode : IsUnicode ascii
unfolding is_ascii_letter is_ascii_digit
ascii-IsUnicode = record {
  whitespace_ascii = λ c h. refl;
  alphabetic_ascii = λ c h. refl;
  alphanumeric_ascii = λ c h. refl;
  alphabetic_alphanumeric = λ c h. ground arith;
  alphanumeric_whitespace = λ c h. ground arith;
}

abbrev mail : PolicyType naturals
mail = record {
  name = text "app::Mail";
  fields =
      Field.bool (text "urgent") (some true) OnConflict.largest_value
      ∷ Field.string_enum (text "priority") (text "low" ∷ text "a\"b" ∷ []) none
          OnConflict.agreement
      ∷ Field.number (text "score") (some 7) OnConflict.largest_value
      ∷ Field.string_array (text "tags")
      ∷ Field.string (text "note") (some (text "x y")) OnConflict.default
      ∷ [];
}

mail-IsDisplayable : IsDisplayable ascii mail
unfolding text IsIdentifier IsPrintable IsFresh IsPlain AllPlain IsReadable IsWord is_plain
    is_numeral numeral_rest is_start is_ascii_letter is_ascii_digit is_word keyword text_eq contains
    join Field.name decimal
mail-IsDisplayable = record {
  parts = text "app" ∷ text "Mail" ∷ [];
  parts_identifiers =
      (((refl, (refl, (refl, tt))), refl), (((refl, (refl, (refl, (refl, tt)))), refl), tt));
  parts_not_empty = cc;
  name_join = refl;
  fields_printable = (
    ((refl, (refl, (refl, (refl, (refl, (refl, tt)))))), refl),
    (
      (
        ((refl, (refl, (refl, (refl, (refl, (refl, (refl, (refl, tt)))))))), refl),
        cc,
        ((refl, (refl, (refl, tt))), ((refl, (refl, (refl, tt))), tt)),
        tt,
      ),
      (
        (((refl, (refl, (refl, (refl, (refl, tt))))), refl), (refl, refl)),
        (
          ((refl, (refl, (refl, (refl, tt)))), refl),
          ((((refl, (refl, (refl, (refl, tt)))), refl), (refl, (refl, (refl, tt)))), tt),
        ),
      ),
    ),
  );
  fields_fresh = (refl, (refl, (refl, (refl, (refl, tt)))));
}

parse-display_type_example : parse ascii (display_type ascii mail) ≡ ok mail
parse-display_type_example = parse-display_type mail ascii-IsUnicode mail-IsDisplayable

parse-IsSound_example : Returns (IsSound ascii) (parse ascii (display_type ascii mail))
parse-IsSound_example = parse-IsSound ascii ascii-IsUnicode (display_type ascii mail)

-- A string with a line feed is read, displayed with an escape, and then refused.
abbrev note : Text → PolicyType naturals
note s = record {
  name = text "t";
  fields = Field.string (text "a") (some s) OnConflict.default ∷ [];
}

line_feed_reads : parse ascii (text "type t { a: string = \"x\ny\" }") ≡ ok (note (text "x\ny"))
unfolding parse text is_ascii_letter text_eq contains
line_feed_reads = refl

line_feed_runs :
    parse ascii (display_type ascii (note (text "x\ny")))
    ≡ err (
        invalid_string_literal
          (text "invalid escape sequence '\\n'")
          (record { line = 2; column = 20 }))
unfolding parse display_type text is_ascii_letter
line_feed_runs = refl

-- A field may have a keyword as its name, but is not read back.
keyword_runs :
    parse ascii (
      display_type ascii
        (record { name = text "t"; fields = Field.string_array (text "last") ∷ [] }))
    ≡ err (unexpected_token (text "identifier") (text "last") (record { line = 2; column = 5 }))
unfolding parse display_type text is_ascii_letter text_eq
keyword_runs = refl

-- what the user is told of it
keyword_message :
    display_error
      (unexpected_token (text "identifier") (text "last") (record { line = 2; column = 5 }))
    ≡ text "at line 2:5: expected identifier, found 'last'"
unfolding display_error text
keyword_message = refl
