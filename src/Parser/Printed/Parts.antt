-- ===== src/Parser/Printed/Parts.antt =====
-- The parts of what `Display` prints of a field after its name.
use policyai.Prelude.{
  ℕ, ◌≡◌, refl, Text, text, text_eq, Bool, true, false, List, ◌∷◌, ◌++◌, append_assoc, inl, inr,
  Option, none, some,
}
use policyai.Json.{Platform}
use policyai.Field.{OnConflict}
use policyai.Format.{debug}
use policyai.Parser.{Lexical, Token, wins}
use policyai.Parser.Lexer.{keyword}
use policyai.Parser.Printed.{IsUnicode, Lexes, is_ascii_letter}
use policyai.Parser.Printed.Words.{Lexes-space}
use policyai.Parser.Printed.Suffixes.{
  IsSeparated, conflict_text, bool_text, string_text, number_text, is_letters, Lexes-letters,
}
use policyai.Display.{display_bool, display_string, display_enum, display_number}

-- What is displayed is the type, the strategy and the default.
pub display_bool-parts :
    (c : OnConflict) (d : Option Bool) (s : Text)
    → display_bool c d ++ s
      ≡ text ": bool" ++ (conflict_text (text "sticky") c ++ (bool_text d ++ s))
unfolding display_bool text conflict_text bool_text
display_bool-parts OnConflict.default none s = refl
display_bool-parts OnConflict.default (some true) s = refl
display_bool-parts OnConflict.default (some false) s = refl
display_bool-parts OnConflict.agreement none s = refl
display_bool-parts OnConflict.agreement (some true) s = refl
display_bool-parts OnConflict.agreement (some false) s = refl
display_bool-parts OnConflict.largest_value none s = refl
display_bool-parts OnConflict.largest_value (some true) s = refl
display_bool-parts OnConflict.largest_value (some false) s = refl

pub display_string-parts :
    (P : Platform) (c : OnConflict) (d : Option Text) (s : Text)
    → display_string P c d ++ s
      ≡ text ": string" ++ (conflict_text (text "last wins") c ++ (string_text P d ++ s))
unfolding display_string text conflict_text string_text
display_string-parts P OnConflict.default none s = refl
display_string-parts P OnConflict.default (some d) s = refl
display_string-parts P OnConflict.agreement none s = refl
display_string-parts P OnConflict.agreement (some d) s = refl
display_string-parts P OnConflict.largest_value none s = refl
display_string-parts P OnConflict.largest_value (some d) s = refl

pub display_enum-parts :
    (P : Platform) (values : Text) (c : OnConflict) (d : Option Text) (s : Text)
    → display_enum P values c d ++ s
      ≡ text ": ["
        ++ (values
            ++ (text "]" ++ (conflict_text (text "highest wins") c ++ (string_text P d ++ s))))
unfolding display_enum text conflict_text string_text
display_enum-parts P values OnConflict.default none s = rw (append_assoc values (text "]") s)
display_enum-parts P values OnConflict.default (some d) s =
    rw (append_assoc values (text "] = " ++ debug P d) s)
display_enum-parts P values OnConflict.agreement none s =
    rw (append_assoc values (text "] @ agreement") s)
display_enum-parts P values OnConflict.agreement (some d) s =
    rw (append_assoc values (text "] @ agreement = " ++ debug P d) s)
display_enum-parts P values OnConflict.largest_value none s =
    rw (append_assoc values (text "] @ highest wins") s)
display_enum-parts P values OnConflict.largest_value (some d) s =
    rw (append_assoc values (text "] @ highest wins = " ++ debug P d) s)

pub conflict_text-IsSeparated :
    (t : Text) (c : OnConflict) (s : Text) → IsSeparated s → IsSeparated (conflict_text t c ++ s)
unfolding conflict_text text IsSeparated
conflict_text-IsSeparated t OnConflict.default s h = h
conflict_text-IsSeparated t OnConflict.agreement s h = inl refl
conflict_text-IsSeparated t OnConflict.largest_value s h = inl refl

pub bool_text-IsSeparated : (d : Option Bool) (s : Text) → IsSeparated (bool_text d ++ b',' ∷ s)
unfolding bool_text text IsSeparated
bool_text-IsSeparated none s = inr (inl refl)
bool_text-IsSeparated (some true) s = inl refl
bool_text-IsSeparated (some false) s = inl refl

pub string_text-IsSeparated :
    (P : Platform) (d : Option Text) (s : Text) → IsSeparated (string_text P d ++ b',' ∷ s)
unfolding string_text text IsSeparated
string_text-IsSeparated P none s = inr (inl refl)
string_text-IsSeparated P (some d) s = inl refl

module _ {P : Platform} {L : Lexical P} (U : IsUnicode L) where
  pub number_text-IsSeparated :
      (d : Option P.F64) (s : Text) → IsSeparated (number_text U d ++ b',' ∷ s)
  unfolding number_text text IsSeparated
  number_text-IsSeparated none s = inr (inl refl)
  number_text-IsSeparated (some d) s = inl refl

  pub display_number-parts :
      (c : OnConflict) (d : Option P.F64) (s : Text)
      → display_number L c d ++ s
        ≡ text ": number" ++ (conflict_text (text "last wins") c ++ (number_text U d ++ s))
  unfolding display_number text conflict_text number_text
  display_number-parts OnConflict.default none s = refl
  display_number-parts OnConflict.default (some d) s = refl
  display_number-parts OnConflict.agreement none s = refl
  display_number-parts OnConflict.agreement (some d) s = refl
  display_number-parts OnConflict.largest_value none s = refl
  display_number-parts OnConflict.largest_value (some d) s = refl

  -- two words that end with `wins`
  pub Lexes-wins :
      (c : ℕ) (w : Text) (us : List (Token P)) (s : Text)
      → is_letters (c ∷ w) ≡ true
      → IsSeparated s
      → Lexes L us s
      → Lexes L (keyword L (c ∷ w) ∷ wins ∷ us) (c ∷ (w ++ (text " wins" ++ s)))
  unfolding text keyword text_eq is_letters is_ascii_letter IsSeparated
  Lexes-wins c w us s l b h =
      Lexes-letters U c w _ _ l (inl refl)
        (Lexes-space U _ _ (Lexes-letters U b'w' (text "ins") us s refl b h))
