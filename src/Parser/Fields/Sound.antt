-- ===== src/Parser/Fields/Sound.antt =====
-- `parse` of src/parser.rs ends, and the policy types that it returns have distinct field names.
use policyai.Prelude.{
  ℕ, zero, suc, ◌≤◌, ◌<◌, ◌≢◌, Text, contains, not, ◌&&◌, Option, some, List, [], ◌∷◌, length,
  arith, All,
}
use policyai.Json.{Platform}
use policyai.Field
use policyai.Field.{Field, OnConflict}
use policyai.PolicyType.{PolicyType}
use policyai.Parser.{
  Lexical, Token, Parsed, ok, ◌>>=◌, type, left_brace, right_brace, right_bracket, comma, colon,
  double_colon,
}
use policyai.Parser.Returns.{Returns, Returns-imp, Returns-if, Returns-bind}
use policyai.Parser.Lexer.{tokenize}
use policyai.Parser.Lexer.Total.{tokenize-Returns}
use policyai.Parser.Grammar.{
  Parser, new, peek, advance, starts, at_end, expect, parse_identifier, parse_string_literal,
}
use policyai.Parser.Grammar.Conflicts.{
  parse_bool_conflict, bool_default, parse_string_conflict, parse_string_enum_conflict,
  parse_number_conflict, string_default, number_default, parse_values,
}
use policyai.Parser.Grammar.Total.{
  parse_identifier-Takes, Keeps, advance-length, starts-length, expect-Keeps,
  parse_identifier-Keeps, parse_string_literal-Keeps,
}
use policyai.Parser.Grammar.Conflicts.Total.{
  parse_bool_conflict-Keeps, bool_default-Keeps, parse_string_conflict-Keeps,
  parse_string_enum_conflict-Keeps, parse_number_conflict-Keeps, string_default-Keeps,
  number_default-Keeps, parse_values-Keeps,
}
use policyai.Parser.Printed.{IsUnicode, IsFresh}
use policyai.Parser.Fields.{
  parse_enum, parse_bracket, field_at, parse_field, parse_name_parts, optional_comma, field_read,
  parse_fields, parse_policy_type, parse,
}

-- An enumeration has a value.
unfoldable pub HasValues : {P : Platform} → Field P → Type 0
HasValues (Field.string_enum _ values _ _) = values ≢ []
HasValues _ = Unit

-- such a field, and no more than so many tokens left
unfoldable Reads : {P : Platform} → ℕ → Field P × Parser P → Type 0
Reads n r = HasValues r.0 × (length r.1.tokens ≤ n)

module _ {P : Platform} (L : Lexical P) where
  -- a field by its strategy and its default
  scalar-Reads {ℓ} :
      {A : Type ℓ} (m : ℕ) (conflict : Parsed (OnConflict × Parser P))
      (default : Parser P → Parsed (A × Parser P)) (f : OnConflict → A → Field P)
      → Returns (Keeps m) conflict
      → ((s : Parser P) → Returns (Keeps (length s.tokens)) (default s))
      → ((c : OnConflict) (a : A) → HasValues (f c a))
      → Returns (Reads m) (conflict >>= (λ c. default c.1 >>= (λ d. ok (f c.0 d.0, d.1))))
  unfolding Returns Reads Keeps
  scalar-Reads m conflict default f h k v = Returns-bind (Keeps m) (Reads m) conflict _ h (λ c l.
      Returns-bind (Keeps (length c.1.tokens)) (Reads m) (default c.1) _ (k c.1)
        (λ d j. (v c.0 d.0, omega arith)))

  Reads-imp :
      (m n : ℕ) (r : Parsed (Field P × Parser P))
      → m ≤ n
      → Returns (Reads m) r
      → Returns (Reads n) r
  unfolding Reads
  Reads-imp m n r l = Returns-imp (Reads m) (Reads n) r (λ a h. (h.0, omega arith))

  parse_enum-Reads :
      (name : Text) (s : Parser P) → Returns (Reads (length s.tokens)) (parse_enum L name s)
  unfolding parse_enum Keeps HasValues
  parse_enum-Reads name s =
      let Q : Field P × Parser P → Type 0 = Reads (length s.tokens) in
      Returns-bind (Keeps (length s.tokens)) Q (parse_string_literal L s) _
        (parse_string_literal-Keeps L s)
        (λ v h.
          Returns-bind (Keeps (length v.1.tokens)) Q (parse_values L (suc (length v.1.tokens)) v.1)
            _ (parse_values-Keeps L (suc (length v.1.tokens)) v.1 (omega arith))
            (λ vs k.
              Returns-bind (λ s'. length s'.tokens ≤ length vs.1.tokens) Q
                (expect L right_bracket vs.1) _ (expect-Keeps L right_bracket vs.1)
                (λ s' l. Reads-imp (length s'.tokens) (length s.tokens) _ (omega arith) (
                  scalar-Reads (length s'.tokens) (parse_string_enum_conflict L s')
                    (string_default L) (λ c d. Field.string_enum name (v.0 ∷ vs.0) d c)
                    (parse_string_enum_conflict-Keeps L s') (string_default-Keeps L) (λ c d. cc)))))

  parse_bracket-Reads :
      (name : Text) (s : Parser P) → Returns (Reads (length s.tokens)) (parse_bracket L name s)
  unfolding parse_bracket Returns Reads HasValues
  parse_bracket-Reads name s =
      let Q : Field P × Parser P → Type 0 = Reads (length s.tokens) in
      Returns-if Q (starts Token.string s) _ _
        (λ _.
          Returns-bind (λ s'. length s'.tokens ≤ length (advance s).tokens) Q
            (expect L right_bracket (advance s)) _ (expect-Keeps L right_bracket (advance s))
            (λ s' h. (tt, omega (arith, advance-length s))))
        (λ _. parse_enum-Reads name s)

  field_at-Reads :
      (name : Text) (o : Option (Token P)) (s : Parser P)
      → Returns (Reads (length s.tokens)) (field_at L name o s)
  unfolding field_at Returns HasValues
  field_at-Reads name (some Token.bool) s =
      Reads-imp (length (advance s).tokens) (length s.tokens) _ (advance-length s) (
        scalar-Reads (length (advance s).tokens) (parse_bool_conflict (advance s)) bool_default
          (λ c d. Field.bool name d c) (parse_bool_conflict-Keeps (advance s)) bool_default-Keeps
          (λ c d. tt))
  field_at-Reads name (some Token.string) s =
      Reads-imp (length (advance s).tokens) (length s.tokens) _ (advance-length s) (
        scalar-Reads (length (advance s).tokens) (parse_string_conflict L (advance s))
          (string_default L) (λ c d. Field.string name d c)
          (parse_string_conflict-Keeps L (advance s)) (string_default-Keeps L) (λ c d. tt))
  field_at-Reads name (some Token.number) s =
      Reads-imp (length (advance s).tokens) (length s.tokens) _ (advance-length s) (
        scalar-Reads (length (advance s).tokens) (parse_number_conflict L (advance s))
          (number_default L) (λ c d. Field.number name d c)
          (parse_number_conflict-Keeps L (advance s)) (number_default-Keeps L) (λ c d. tt))
  field_at-Reads name (some Token.left_bracket) s =
      Reads-imp (length (advance s).tokens) (length s.tokens) _ (advance-length s)
        (parse_bracket-Reads name (advance s))
  field_at-Reads name _ s = tt

  -- A field takes a token.
  Takes : Parser P → Field P × Parser P → Type 0
  Takes s r = HasValues r.0 × (length r.1.tokens < length s.tokens)

  parse_field-Takes : (s : Parser P) → Returns (Takes s) (parse_field L s)
  unfolding parse_field Reads Takes
  parse_field-Takes s =
      Returns-bind (λ r. length r.1.tokens < length s.tokens) (Takes s) (parse_identifier L s) _
        (parse_identifier-Takes L s)
        (λ name h.
          Returns-bind (λ s'. length s'.tokens ≤ length name.1.tokens) (Takes s)
            (expect L colon name.1) _ (expect-Keeps L colon name.1)
            (λ s' k.
              Returns-imp (Reads (length s'.tokens)) (Takes s) _ (λ r m. (m.0, omega arith))
                (field_at-Reads name.0 (peek s') s')))

  parse_name_parts-Keeps :
      (fuel : ℕ) (s : Parser P)
      → length s.tokens < fuel
      → Returns (Keeps (length s.tokens)) (parse_name_parts L fuel s)
  unfolding parse_name_parts Returns Keeps
  parse_name_parts-Keeps zero s h = absurd (omega arith)
  parse_name_parts-Keeps (suc fuel) s h =
      let n = length s.tokens in
      Returns-if (Keeps n) (starts double_colon s) _ _
        (λ e.
          Returns-bind (Keeps (length (advance s).tokens)) (Keeps n)
            (parse_identifier L (advance s)) _ (parse_identifier-Keeps L (advance s))
            (λ v k.
              Returns-bind (Keeps (length v.1.tokens)) (Keeps n) (parse_name_parts L fuel v.1) _
                (parse_name_parts-Keeps fuel v.1 (omega (arith, starts-length double_colon s e)))
                (λ vs m. omega (arith, advance-length s))))
        (λ _. omega arith)

  optional_comma-Keeps :
      (s : Parser P) → Returns (λ s'. length s'.tokens ≤ length s.tokens) (optional_comma L s)
  unfolding optional_comma Returns
  optional_comma-Keeps s =
      let Q : Parser P → Type 0 = λ s'. length s'.tokens ≤ length s.tokens in
      Returns-if Q (starts comma s) _ _ (λ _. advance-length s)
        (λ _. Returns-if Q (not (starts right_brace s)) _ _ (λ _. tt) (λ _. omega arith))

  -- What the fields are that were read: new, distinct, and each enumeration with a value.
  unfoldable Adds : List Text → ℕ → List (Field P) × Parser P → Type 0
  Adds seen n r = IsFresh L seen r.0 × All HasValues r.0 × (length r.1.tokens ≤ n)

  field_read-Adds :
      (seen : List Text) (n : ℕ) (read : Field P × Parser P)
      (rest : List Text → Parser P → Parsed (List (Field P) × Parser P))
      → Reads n read
      → ((seen : List Text) (s : Parser P)
          → length s.tokens ≤ n
          → Returns (Adds seen n) (rest seen s))
      → Returns (Adds seen n) (field_read L seen read rest)
  unfolding field_read Returns Adds Reads IsFresh
  field_read-Adds seen n read rest h k =
      let name = Field.name read.0 in
      Returns-if (Adds seen n) (contains seen name) _ _ (λ _. tt)
        (λ e.
          Returns-bind (λ s'. length s'.tokens ≤ length read.1.tokens) (Adds seen n)
            (optional_comma L read.1) _ (optional_comma-Keeps read.1)
            (λ s l.
              Returns-bind (Adds (name ∷ seen) n) (Adds seen n) (rest (name ∷ seen) s) _
                (k (name ∷ seen) s (omega arith)) (λ fs m. ((e, m.0), (h.0, m.1), m.2))))

  -- with fuel for each token and one more
  parse_fields-Adds :
      (fuel : ℕ) (seen : List Text) (s : Parser P)
      → length s.tokens < fuel
      → Returns (Adds seen (length s.tokens)) (parse_fields L fuel seen s)
  unfolding parse_fields Returns Adds Takes Reads IsFresh
  parse_fields-Adds zero seen s h = absurd (omega arith)
  parse_fields-Adds (suc fuel) seen s h =
      let n = length s.tokens in
      Returns-if (Adds seen n) (not (starts right_brace s) && not (at_end s)) _ _
        (λ _.
          Returns-bind (Takes s) (Adds seen n) (parse_field L s) _ (parse_field-Takes s) (λ read l.
            Returns-imp (Adds seen (length read.1.tokens)) (Adds seen n) _
              (λ r m. (m.0, m.1, omega arith))
              (field_read-Adds seen (length read.1.tokens) read (parse_fields L fuel)
                (l.0, omega arith)
                (λ seen s' k.
                  Returns-imp (Adds seen (length s'.tokens)) (Adds seen (length read.1.tokens)) _
                    (λ r m. (m.0, m.1, omega arith))
                    (parse_fields-Adds fuel seen s' (omega arith))))))
        (λ _. (tt, tt, omega arith))

  -- The fields have distinct names, and each enumeration has a value.
  unfoldable pub IsSound : PolicyType P → Type 0
  IsSound t = IsFresh L [] t.fields × All HasValues t.fields

  parse_policy_type-IsSound : (s : Parser P) → Returns (λ r. IsSound r.0) (parse_policy_type L s)
  unfolding parse_policy_type Returns Keeps Adds IsSound
  parse_policy_type-IsSound s =
      let Q : PolicyType P × Parser P → Type 0 = λ r. IsSound r.0 in
      let Any : Parser P → Type 0 = λ _. Unit in
      let any : (t : Token P) (s : Parser P) → Returns Any (expect L t s) = λ t s.
        Returns-imp (λ s'. length s'.tokens ≤ length s.tokens) Any (expect L t s) (λ _ _. tt)
          (expect-Keeps L t s) in
      Returns-bind Any Q (expect L type s) _ (any type s) (λ s1 _.
        Returns-bind (Keeps (length s1.tokens)) Q (parse_identifier L s1) _
          (parse_identifier-Keeps L s1)
          (λ part _.
            Returns-bind (Keeps (length part.1.tokens)) Q
              (parse_name_parts L (suc (length part.1.tokens)) part.1) _
              (parse_name_parts-Keeps (suc (length part.1.tokens)) part.1 (omega arith))
              (λ parts _.
                Returns-bind Any Q (expect L left_brace parts.1) _ (any left_brace parts.1) (λ s2 _.
                  Returns-bind (Adds [] (length s2.tokens)) Q
                    (parse_fields L (suc (length s2.tokens)) [] s2) _
                    (parse_fields-Adds (suc (length s2.tokens)) [] s2 (omega arith))
                    (λ fs m.
                      Returns-bind Any Q (expect L right_brace fs.1) _ (any right_brace fs.1)
                        (λ s3 _. (m.0, m.1)))))))

  -- Where the tests on characters behave as documented, `parse` ends on every input with a policy type
  -- or an error, and the fields of a policy type that it returns have distinct names, and each
  -- enumeration among them has a value.
  pub parse-IsSound : IsUnicode L → (input : Text) → Returns IsSound (parse L input)
  unfolding parse Returns IsSound
  parse-IsSound U input =
      Returns-bind (λ ts. length ts ≤ length input) IsSound (tokenize L input) _
        (tokenize-Returns U input)
        (λ ts _.
          Returns-bind (λ r. IsSound r.0) IsSound (parse_policy_type L (new ts)) (λ r. ok r.0)
            (parse_policy_type-IsSound (new ts)) (λ r h. h))
