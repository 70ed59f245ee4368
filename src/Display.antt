-- ===== src/Display.antt =====
-- `Display` of a field (src/field.rs) and of a policy type (src/policy_type.rs).
use policyai.Prelude.{Text, text, Bool, true, false, Option, none, some, List, [], ◌∷◌, ◌++◌}
use policyai.Json.{Platform}
use policyai.Format.{debug}
use policyai.Field.{Field, OnConflict, T64}
use policyai.PolicyType.{PolicyType}
use policyai.Parser.{Lexical}

-- the texts of a boolean, by the strategy and the default
unfoldable pub display_bool : OnConflict → Option Bool → Text
display_bool OnConflict.default (some true) = text ": bool = true"
display_bool OnConflict.default (some false) = text ": bool = false"
display_bool OnConflict.default none = text ": bool"
display_bool OnConflict.agreement (some true) = text ": bool @ agreement = true"
display_bool OnConflict.agreement (some false) = text ": bool @ agreement = false"
display_bool OnConflict.agreement none = text ": bool @ agreement"
display_bool OnConflict.largest_value (some true) = text ": bool @ sticky = true"
display_bool OnConflict.largest_value (some false) = text ": bool @ sticky = false"
display_bool OnConflict.largest_value none = text ": bool @ sticky"

unfoldable pub display_string : Platform → OnConflict → Option Text → Text
unfolding debug
display_string P OnConflict.default (some d) = text ": string = " ++ debug P d
display_string P OnConflict.default none = text ": string"
display_string P OnConflict.agreement (some d) = text ": string @ agreement = " ++ debug P d
display_string P OnConflict.agreement none = text ": string @ agreement"
display_string P OnConflict.largest_value (some d) = text ": string @ last wins = " ++ debug P d
display_string P OnConflict.largest_value none = text ": string @ last wins"

-- the values of an enumeration, joined by `, `
unfoldable pub display_values : Platform → List Text → Text
unfolding debug
display_values P [] = []
display_values P (v ∷ []) = debug P v
display_values P (v ∷ w ∷ vs) = debug P v ++ (text ", " ++ display_values P (w ∷ vs))

-- from the values as they are displayed
unfoldable pub display_enum : Platform → Text → OnConflict → Option Text → Text
unfolding debug
display_enum P values OnConflict.default (some d) =
    text ": [" ++ (values ++ (text "] = " ++ debug P d))
display_enum P values OnConflict.default none = text ": [" ++ (values ++ text "]")
display_enum P values OnConflict.agreement (some d) =
    text ": [" ++ (values ++ (text "] @ agreement = " ++ debug P d))
display_enum P values OnConflict.agreement none = text ": [" ++ (values ++ text "] @ agreement")
display_enum P values OnConflict.largest_value (some d) =
    text ": [" ++ (values ++ (text "] @ highest wins = " ++ debug P d))
display_enum P values OnConflict.largest_value none =
    text ": [" ++ (values ++ text "] @ highest wins")

module _ {P : Platform} (L : Lexical P) where
  unfoldable pub display_number : OnConflict → Option (T64 P) → Text
  display_number OnConflict.default (some d) = text ": number = " ++ L.display_f64 d
  display_number OnConflict.default none = text ": number"
  display_number OnConflict.agreement (some d) = text ": number @ agreement = " ++ L.display_f64 d
  display_number OnConflict.agreement none = text ": number @ agreement"
  display_number OnConflict.largest_value (some d) =
      text ": number @ last wins = " ++ L.display_f64 d
  display_number OnConflict.largest_value none = text ": number @ last wins"

  unfoldable pub display_field : Field P → Text
  unfolding display_bool display_string display_enum display_values display_number
  display_field (Field.bool name d c) = name ++ display_bool c d
  display_field (Field.string name d c) = name ++ display_string P c d
  display_field (Field.string_enum name values d c) =
      name ++ display_enum P (display_values P values) c d
  display_field (Field.string_array name) = name ++ text ": [string]"
  display_field (Field.number name d c) = name ++ display_number c d

  -- the line of each field
  unfoldable pub display_fields : List (Field P) → Text
  unfolding display_field
  display_fields [] = []
  display_fields (f ∷ fs) = text "    " ++ (display_field f ++ (text ",\n" ++ display_fields fs))

  unfoldable pub display_type : PolicyType P → Text
  unfolding display_fields
  display_type t =
      text "type " ++ (t.name ++ (text " {\n" ++ (display_fields t.fields ++ text "}")))
