-- ===== src/Parser/Errors.antt =====
-- `Display` of a `ParseError` of src/parser.rs.
use policyai.Prelude.{Text, text, ◌++◌}
use policyai.Format.{decimal}
use policyai.Parser.{
  Position, ParseError, unexpected_token, unexpected_end_of_input, invalid_identifier,
  invalid_string_literal, invalid_number, duplicate_field_name, custom,
}

located : Position → Text → Text
unfolding decimal
located p message =
    text "at line "
    ++ (decimal p.line ++ (text ":" ++ (decimal p.column ++ (text ": " ++ message))))

unfoldable pub display_error : ParseError → Text
unfolding located
display_error (unexpected_token expected found p) =
    located p (text "expected " ++ (expected ++ (text ", found '" ++ (found ++ text "'"))))
display_error (unexpected_end_of_input expected p) =
    located p (text "unexpected end of input, expected " ++ expected)
display_error (invalid_identifier reason p) = located p (text "invalid identifier: " ++ reason)
display_error (invalid_string_literal reason p) =
    located p (text "invalid string literal: " ++ reason)
display_error (invalid_number reason p) = located p (text "invalid number: " ++ reason)
display_error (duplicate_field_name name p) =
    located p (text "duplicate field name '" ++ (name ++ text "'"))
display_error (custom message p) = located p message
