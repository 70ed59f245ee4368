-- ===== src/Parser/Printed/Suffixes.antt =====
-- How the lexer reads what is displayed after the name of a field.
use policyai.Prelude.{
  ℕ, ◌<◌, ◌≡◌, refl, Text, text, text_eq, Bool, true, false, ◌&&◌, List, [], ◌∷◌, ◌++◌,
  append_assoc, arith, All, inl, inr, ◌⊎◌, and-cases, Option, none, some,
}
use policyai.Json.{Platform}
use policyai.Format.{debug}
use policyai.Field.{OnConflict}
use policyai.Parser.{Lexical, Token}
use policyai.Parser.Lexer.{is_ascii_digit, is_word, keyword}
use policyai.Parser.Printed.{
  IsUnicode, IsPlain, AllPlain, IsReadable, IsWord, Lexes, is_ascii_letter, is_start,
}
use policyai.Parser.Printed.Words.{
  IsBreak, Lexes-space, Lexes-comma, Lexes-at_sign, Lexes-equals, Lexes-word,
}
use policyai.Parser.Printed.Literals.{Lexes-debug, Lexes-number, IsNumeralEnd}
use policyai.Parser.Printed.Tokens.{
  conflict_tokens, bool_tokens, string_tokens, number_tokens, values_tokens, all_values_tokens,
}
use policyai.Display.{display_values}

-- A space, a comma or a closing bracket comes next.
unfoldable pub IsSeparated : Text → Type 0
IsSeparated [] = ⊥
IsSeparated (c ∷ s) = (c ≡ b' ') ⊎ ((c ≡ b',') ⊎ (c ≡ b']'))

unfoldable pub conflict_text : Text → OnConflict → Text
unfolding text
conflict_text t OnConflict.default = []
conflict_text t OnConflict.agreement = text " @ agreement"
conflict_text t OnConflict.largest_value = text " @ " ++ t

unfoldable pub bool_text : Option Bool → Text
bool_text none = []
bool_text (some true) = text " = true"
bool_text (some false) = text " = false"

unfoldable pub string_text : Platform → Option Text → Text
string_text P none = []
string_text P (some d) = text " = " ++ debug P d

unfoldable pub is_letters : Text → Bool
is_letters [] = true
is_letters (c ∷ s) = is_ascii_letter c && is_letters s

letter-ascii : (c : ℕ) → is_ascii_letter c ≡ true → c < 128
unfolding is_ascii_letter
letter-ascii c h = ground arith

module _ {P : Platform} {L : Lexical P} (U : IsUnicode L) where
  letter-is_word : (c : ℕ) → is_ascii_letter c ≡ true → is_word L c ≡ true
  unfolding is_word
  letter-is_word c h = rw (U.alphanumeric_ascii c (letter-ascii c h), h)

  letters-words : (w : Text) → is_letters w ≡ true → All (λ d. is_word L d ≡ true) w
  unfolding is_letters
  letters-words [] h = tt
  letters-words (c ∷ w) h =
      let (l, r) = and-cases (is_ascii_letter c) (is_letters w) h in
      (letter-is_word c l, letters-words w r)

  letters-IsWord : (c : ℕ) (w : Text) → is_letters (c ∷ w) ≡ true → IsWord L (c ∷ w)
  unfolding is_letters IsWord is_start
  letters-IsWord c w h =
      let (l, r) = and-cases (is_ascii_letter c) (is_letters w) h in
      (rw (U.alphabetic_ascii c (letter-ascii c l), l), letters-words w r)

  pub IsSeparated-IsBreak : (s : Text) → IsSeparated s → IsBreak U s
  unfolding IsSeparated IsBreak is_word is_ascii_letter is_ascii_digit
  IsSeparated-IsBreak [] h = tt
  IsSeparated-IsBreak (c ∷ s) (inl e) = rw (e, U.alphanumeric_ascii b' ' (omega arith))
  IsSeparated-IsBreak (c ∷ s) (inr (inl e)) = rw (e, U.alphanumeric_ascii b',' (omega arith))
  IsSeparated-IsBreak (c ∷ s) (inr (inr e)) = rw (e, U.alphanumeric_ascii b']' (omega arith))

  -- a word of letters before one of these
  pub Lexes-letters :
      (c : ℕ) (w : Text) (us : List (Token P)) (s : Text)
      → is_letters (c ∷ w) ≡ true
      → IsSeparated s
      → Lexes L us s
      → Lexes L (keyword L (c ∷ w) ∷ us) (c ∷ (w ++ s))
  Lexes-letters c w us s h b =
      Lexes-word U (c ∷ w) us s (letters-IsWord c w h) (IsSeparated-IsBreak s b)

  pub Lexes-conflict :
      (t : Text) (ws : List (Token P)) (c : OnConflict) (us : List (Token P)) (s : Text)
      → IsSeparated s
      → Lexes L us s
      → Lexes L (ws ++ us) (t ++ s)
      → Lexes L (conflict_tokens ws c us) (conflict_text t c ++ s)
  unfolding conflict_tokens conflict_text text keyword text_eq is_letters is_ascii_letter
  Lexes-conflict t ws OnConflict.default us s b h k = h
  Lexes-conflict t ws OnConflict.agreement us s b h k =
      Lexes-space U _ _ (
        Lexes-at_sign U _ _
          (Lexes-space U _ _ (Lexes-letters b'a' (text "greement") us s refl b h)))
  Lexes-conflict t ws OnConflict.largest_value us s b h k =
      Lexes-space U _ _ (Lexes-at_sign U _ _ (Lexes-space U _ _ k))

  pub Lexes-bool :
      (d : Option Bool) (us : List (Token P)) (s : Text)
      → IsSeparated s
      → Lexes L us s
      → Lexes L (bool_tokens d us) (bool_text d ++ s)
  unfolding bool_tokens bool_text text keyword text_eq is_letters is_ascii_letter
  Lexes-bool none us s b h = h
  Lexes-bool (some true) us s b h =
      Lexes-space U _ _
        (Lexes-equals U _ _ (Lexes-space U _ _ (Lexes-letters b't' (text "rue") us s refl b h)))
  Lexes-bool (some false) us s b h =
      Lexes-space U _ _
        (Lexes-equals U _ _ (Lexes-space U _ _ (Lexes-letters b'f' (text "alse") us s refl b h)))

  pub Lexes-string :
      (d : Option Text) (us : List (Token P)) (s : Text)
      → AllPlain P d
      → Lexes L us s
      → Lexes L (string_tokens d us) (string_text P d ++ s)
  unfolding string_tokens string_text text AllPlain
  Lexes-string none us s b h = h
  Lexes-string (some d) us s b h =
      Lexes-space U _ _ (Lexes-equals U _ _ (Lexes-space U _ _ (Lexes-debug U d us s b h)))

  unfoldable pub number_text : Option P.F64 → Text
  number_text none = []
  number_text (some d) = text " = " ++ L.display_f64 d

  pub Lexes-default :
      (d : Option P.F64) (us : List (Token P)) (s : Text)
      → IsReadable L d
      → IsNumeralEnd s
      → Lexes L us s
      → Lexes L (number_tokens d us) (number_text d ++ s)
  unfolding number_tokens number_text text
  Lexes-default none us s b e h = h
  Lexes-default (some d) us s b e h =
      Lexes-space U _ _ (Lexes-equals U _ _ (Lexes-space U _ _ (Lexes-number U d us s b e h)))

  pub Lexes-values :
      (v : Text) (vs : List Text) (us : List (Token P)) (s : Text)
      → All (IsPlain P) (v ∷ vs)
      → Lexes L us s
      → Lexes L (all_values_tokens (v ∷ vs) us) (display_values P (v ∷ vs) ++ s)
  unfolding all_values_tokens values_tokens display_values text
  Lexes-values v [] us s h k = Lexes-debug U v us s h.0 k
  Lexes-values v (w ∷ vs) us s h k =
      rw (append_assoc (debug P v) (text ", " ++ display_values P (w ∷ vs)) s) (
        Lexes-debug U v _ _ h.0
          (Lexes-comma U _ _ (Lexes-space U _ _ (Lexes-values w vs us s h.1 k))))
