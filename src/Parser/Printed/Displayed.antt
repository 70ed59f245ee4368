-- ===== src/Parser/Printed/Displayed.antt =====
-- How the lexer reads a displayed field and a displayed policy type.
use policyai.Prelude.{
  ℕ, ◌<◌, ◌==◌, ◌≡◌, refl, sym, Text, text, text_eq, false, ◌||◌, List, [], ◌∷◌, ◌++◌, append_assoc,
  arith, All, inl, inr, Option,
}
use policyai.Json.{Platform}
use policyai.Field
use policyai.Field.{Field, OnConflict}
use policyai.PolicyType.{PolicyType}
use policyai.Parser.{Lexical, Token, identifier, sticky, wins, last, highest}
use policyai.Parser.Lexer.{is_ascii_digit, is_word, keyword}
use policyai.Parser.Fields.{join}
use policyai.Parser.Printed.{IsUnicode, IsIdentifier, IsPrintable, AllPlain, Lexes, is_ascii_letter}
use policyai.Parser.Printed.Lexing.{Lexes-nil}
use policyai.Parser.Printed.Words.{
  IsBreak, Lexes-space, Lexes-newline, Lexes-colon, Lexes-double_colon, Lexes-comma,
  Lexes-left_bracket, Lexes-right_bracket, Lexes-left_brace, Lexes-right_brace, Lexes-word,
}
use policyai.Parser.Printed.Literals.{IsNumeralEnd}
use policyai.Parser.Printed.Tokens.{
  conflict_tokens, string_tokens, suffix_tokens, fields_tokens, parts_tokens, type_tokens,
}
use policyai.Parser.Printed.Suffixes.{
  IsSeparated, conflict_text, string_text, is_letters, Lexes-letters, Lexes-conflict, Lexes-bool,
  Lexes-string, Lexes-default, Lexes-values,
}
use policyai.Parser.Printed.Parts.{
  display_bool-parts, display_string-parts, display_enum-parts, display_number-parts,
  conflict_text-IsSeparated, bool_text-IsSeparated, string_text-IsSeparated,
  number_text-IsSeparated, Lexes-wins,
}
use policyai.Display.{
  display_bool, display_string, display_values, display_enum, display_number, display_field,
  display_fields, display_type,
}

-- what is displayed of a field after its name
unfoldable pub suffix : {P : Platform} → Lexical P → Field P → Text
suffix {P} L (Field.bool name d c) = display_bool c d
suffix {P} L (Field.string name d c) = display_string P c d
suffix {P} L (Field.string_enum name values d c) = display_enum P (display_values P values) c d
suffix {P} L (Field.string_array name) = text ": [string]"
suffix {P} L (Field.number name d c) = display_number L c d

display_field-suffix :
    {P : Platform} (L : Lexical P) (f : Field P) → display_field L f ≡ Field.name f ++ suffix L f
unfolding display_field suffix Field.name
display_field-suffix L (Field.bool _ _ _) = refl
display_field-suffix L (Field.string _ _ _) = refl
display_field-suffix L (Field.string_enum _ _ _ _) = refl
display_field-suffix L (Field.string_array _) = refl
display_field-suffix L (Field.number _ _ _) = refl

module _ {P : Platform} {L : Lexical P} (U : IsUnicode L) where
  -- the strategy and the default of a string, before a comma
  Lexes-string_end :
      (t : Text) (ws us : List (Token P)) (c : OnConflict) (d : Option Text) (s : Text)
      → ((us : List (Token P)) (s : Text)
          → IsSeparated s
          → Lexes L us s
          → Lexes L (ws ++ us) (t ++ s))
      → AllPlain P d
      → Lexes L us (b',' ∷ s)
      → Lexes L
          (conflict_tokens ws c (string_tokens d us))
          (conflict_text t c ++ (string_text P d ++ b',' ∷ s))
  Lexes-string_end t ws us c d s k a h =
      let q = Lexes-string U d us (b',' ∷ s) a h in
      let b = string_text-IsSeparated P d s in Lexes-conflict U t ws c _ _ b q (k _ _ b q)

  -- A colon, a space and a word of letters come first.
  Lexes-suffix :
      (f : Field P) (us : List (Token P)) (s : Text)
      → IsPrintable L f
      → Lexes L us (b',' ∷ s)
      → Lexes L (suffix_tokens f us) (suffix L f ++ b',' ∷ s)
  unfolding suffix suffix_tokens IsPrintable text keyword text_eq is_letters is_ascii_letter
      IsNumeralEnd is_ascii_digit IsSeparated
  Lexes-suffix (Field.bool name d c) us s h k =
      let b = bool_text-IsSeparated d s in
      let q = Lexes-bool U d us (b',' ∷ s) (inr (inl refl)) k in
      rw (display_bool-parts c d (b',' ∷ s)) (
        Lexes-colon U _ _ (
          Lexes-letters U b'b' (text "ool") _ _ refl
            (conflict_text-IsSeparated (text "sticky") c _ b)
            (Lexes-conflict U (text "sticky") (sticky ∷ []) c _ _ b q
              (Lexes-letters U b's' (text "ticky") _ _ refl b q))))
  Lexes-suffix (Field.string name d c) us s h k = rw (display_string-parts P c d (b',' ∷ s)) (
      Lexes-colon U _ _ (
        Lexes-letters U b's' (text "tring") _ _ refl
          (conflict_text-IsSeparated (text "last wins") c _ (string_text-IsSeparated P d s))
          (Lexes-string_end (text "last wins") (last ∷ wins ∷ []) us c d s
            (λ us s. Lexes-wins U b'l' (text "ast") us s refl) h.1 k)))
  Lexes-suffix (Field.string_enum name [] d c) us s h k = absurd (h.1 refl)
  Lexes-suffix (Field.string_enum name (v ∷ vs) d c) us s h k =
      rw (display_enum-parts P (display_values P (v ∷ vs)) c d (b',' ∷ s)) (
        Lexes-colon U _ _ (
          Lexes-left_bracket U _ _ (
            Lexes-values U v vs _ _ h.2 (
              Lexes-right_bracket U _ _ (
                Lexes-string_end (text "highest wins") (highest ∷ wins ∷ []) us c d s
                  (λ us s. Lexes-wins U b'h' (text "ighest") us s refl) h.3 k)))))
  Lexes-suffix (Field.string_array name) us s h k = Lexes-colon U _ _ (
      Lexes-left_bracket U _ _ (
        Lexes-letters U b's' (text "tring") _ _ refl (inr (inr refl))
          (Lexes-right_bracket U _ _ k)))
  Lexes-suffix (Field.number name d c) us s h k =
      let b = number_text-IsSeparated U d s in
      let q = Lexes-default U d us (b',' ∷ s) h.1 (refl, refl) k in
      rw (display_number-parts U c d (b',' ∷ s)) (
        Lexes-colon U _ _ (
          Lexes-letters U b'n' (text "umber") _ _ refl
            (conflict_text-IsSeparated (text "last wins") c _ b)
            (Lexes-conflict U (text "last wins") (last ∷ wins ∷ []) c _ _ b q
              (Lexes-wins U b'l' (text "ast") _ _ refl b q))))

  Lexes-identifier :
      (w : Text) (us : List (Token P)) (s : Text)
      → IsIdentifier L w
      → IsBreak U s
      → Lexes L us s
      → Lexes L (identifier w ∷ us) (w ++ s)
  unfolding IsIdentifier
  Lexes-identifier w us s h b k = rw (sym h.1) (Lexes-word U w us s h.0 b k)

  IsPrintable-IsIdentifier : (f : Field P) → IsPrintable L f → IsIdentifier L (Field.name f)
  unfolding IsPrintable Field.name
  IsPrintable-IsIdentifier (Field.bool _ _ _) h = h
  IsPrintable-IsIdentifier (Field.string _ _ _) h = h.0
  IsPrintable-IsIdentifier (Field.string_enum _ _ _ _) h = h.0
  IsPrintable-IsIdentifier (Field.string_array _) h = h
  IsPrintable-IsIdentifier (Field.number _ _ _) h = h.0

  not_word :
      (c : ℕ)
      → c < 128
      → (is_ascii_letter c || is_ascii_digit c) ≡ false
      → (c == b'_') ≡ false
      → is_word L c ≡ false
  unfolding is_word
  not_word c l a u = rw (U.alphanumeric_ascii c l, a, u)

  -- A colon comes first.
  suffix-IsBreak : (f : Field P) (s : Text) → IsBreak U (suffix L f ++ s)
  unfolding suffix IsBreak text is_ascii_letter is_ascii_digit
  suffix-IsBreak (Field.bool _ d c) s =
      rw (display_bool-parts c d s) (not_word b':' (omega arith) refl refl)
  suffix-IsBreak (Field.string _ d c) s =
      rw (display_string-parts P c d s) (not_word b':' (omega arith) refl refl)
  suffix-IsBreak (Field.string_enum _ vs d c) s =
      rw (display_enum-parts P (display_values P vs) c d s) (not_word b':' (omega arith) refl refl)
  suffix-IsBreak (Field.string_array _) s = not_word b':' (omega arith) refl refl
  suffix-IsBreak (Field.number _ d c) s =
      rw (display_number-parts U c d s) (not_word b':' (omega arith) refl refl)

  -- the fields, each on its line
  Lexes-fields :
      (fs : List (Field P)) (us : List (Token P)) (s : Text)
      → All (IsPrintable L) fs
      → Lexes L us s
      → Lexes L (fields_tokens fs us) (display_fields L fs ++ s)
  unfolding fields_tokens display_fields text
  Lexes-fields [] us s h k = k
  Lexes-fields (f ∷ fs) us s h k =
      let space = Lexes-space U in
      let rest = Lexes-comma U _ _ (Lexes-newline U _ _ (Lexes-fields fs us s h.1 k)) in
      rw
        (
          append_assoc (display_field L f) (text ",\n" ++ display_fields L fs) s,
          display_field-suffix L f,
          append_assoc (Field.name f) (suffix L f) (text ",\n" ++ (display_fields L fs ++ s)),
        )
        (space _ _ (
          space _ _ (
            space _ _ (
              space _ _ (
                Lexes-identifier (Field.name f) _ _ (IsPrintable-IsIdentifier f h.0)
                  (suffix-IsBreak f _) (Lexes-suffix f _ _ h.0 rest))))))

  -- the name of a policy type
  Lexes-parts :
      (part : Text) (parts : List Text) (us : List (Token P)) (s : Text)
      → All (IsIdentifier L) (part ∷ parts)
      → IsBreak U s
      → Lexes L us s
      → Lexes L (identifier part ∷ parts_tokens parts us) (join (part ∷ parts) ++ s)
  unfolding parts_tokens join text IsBreak is_ascii_letter is_ascii_digit
  Lexes-parts part [] us s h b k = Lexes-identifier part us s h.0 b k
  Lexes-parts part (q ∷ parts) us s h b k =
      rw (append_assoc part (text "::" ++ join (q ∷ parts)) s) (
        Lexes-identifier part _ _ h.0 (not_word b':' (omega arith) refl refl)
          (Lexes-double_colon U _ _ (Lexes-parts q parts us s h.1 b k)))

  -- a policy type whose name is these parts joined
  pub Lexes-display_type :
      (t : PolicyType P) (part : Text) (parts : List Text)
      → All (IsIdentifier L) (part ∷ parts)
      → t.name ≡ join (part ∷ parts)
      → All (IsPrintable L) t.fields
      → Lexes L (type_tokens part parts t.fields) (display_type L t)
  unfolding type_tokens display_type text IsBreak is_letters is_ascii_letter is_ascii_digit keyword
      text_eq IsSeparated
  Lexes-display_type t part parts h e k = rw e (
      Lexes-letters U b't' (text "ype") _ _ refl (inl refl) (
        Lexes-space U _ _ (
          Lexes-parts part parts _ _ h (not_word b' ' (omega arith) refl refl) (
            Lexes-space U _ _ (
              Lexes-left_brace U _ _ (
                Lexes-newline U _ _
                  (Lexes-fields t.fields _ _ k (Lexes-right_brace U _ _ (Lexes-nil L)))))))))
