-- ===== src/Manager.antt =====
-- src/manager.rs: the policies of one type, and their application to a text by a remote model.
-- The model, the clock and the generator of identifiers are parameters.
pub mod Apply
pub mod Sorting
use policyai.Prelude.{
  ℕ, zero, suc, ◌+◌, ◌-◌, Text, text, text_eq, Bool, true, false, not, ◌&&◌, ◌||◌, Option, none,
  some, List, [], ◌∷◌, ◌++◌, length, get_elem?, ltb, leb, ◌==◌, if◌then◌else◌, ◌⊎◌, inl, inr,
  option_eq,
}
use policyai.Json.{Platform, Value, value_get}
use policyai.Json.Equality.{bool_eq}
use policyai.Format.{decimal}
use policyai.Field.{Field, OnConflict, t64_eq}
use policyai.PolicyType.{PolicyType, Policy}
use policyai.Errors.{
  PolicyError, ApplyError, policy, claudius, too_many_iterations, invalid_response,
}
use policyai.Report.{Report}
use policyai.ReportBuilder.{Schemas, ReportBuilder, initial, consume_ir, schema}
use policyai.ReportBuilder.Policies.{Added, add_policy}
use policyai.Usage.{
  Claudius, Request, Response, Client, Usage, new_usage, add_claudius_usage, increment_iterations,
  set_wall_clock_time,
}

unfoldable pub conflict_eq : OnConflict → OnConflict → Bool
conflict_eq OnConflict.default OnConflict.default = true
conflict_eq OnConflict.agreement OnConflict.agreement = true
conflict_eq OnConflict.largest_value OnConflict.largest_value = true
conflict_eq _ _ = false

unfoldable pub texts_eq : List Text → List Text → Bool
texts_eq [] [] = true
texts_eq (s ∷ ss) (t ∷ ts) = text_eq s t && texts_eq ss ts
texts_eq _ _ = false

module _ {P : Platform} where
  -- the derived `PartialEq` of `Field` and `PolicyType`
  unfoldable pub field_eq : Field P → Field P → Bool
  unfolding conflict_eq texts_eq
  field_eq (Field.bool n d c) (Field.bool n' d' c') =
      text_eq n n' && option_eq bool_eq d d' && conflict_eq c c'
  field_eq (Field.string n d c) (Field.string n' d' c') =
      text_eq n n' && option_eq text_eq d d' && conflict_eq c c'
  field_eq (Field.string_enum n v d c) (Field.string_enum n' v' d' c') =
      text_eq n n' && texts_eq v v' && option_eq text_eq d d' && conflict_eq c c'
  field_eq (Field.string_array n) (Field.string_array n') = text_eq n n'
  field_eq (Field.number n d c) (Field.number n' d' c') =
      text_eq n n' && option_eq (t64_eq P) d d' && conflict_eq c c'
  field_eq _ _ = false

  unfoldable pub fields_eq : List (Field P) → List (Field P) → Bool
  unfolding field_eq
  fields_eq [] [] = true
  fields_eq (f ∷ fs) (g ∷ gs) = field_eq f g && fields_eq fs gs
  fields_eq _ _ = false

  unfoldable pub type_eq : PolicyType P → PolicyType P → Bool
  unfolding fields_eq
  type_eq a b = text_eq a.name b.name && fields_eq a.fields b.fields

pub record Manager (P : Platform) : Type 0 where
  pub policies : List (Policy P)

module _ {P : Platform} where
  -- `Manager::default`
  abbrev pub empty : Manager P
  empty = record { policies = [] }

  unfoldable pub last : List (Policy P) → Option (Policy P)
  last [] = none
  last (p ∷ []) = some p
  last (p ∷ q ∷ ps) = last (q ∷ ps)

  -- the `assert_eq!`, at the last policy
  same_type : Option (Policy P) → Policy P → Bool
  same_type none p = true
  same_type (some q) p = type_eq q.type p.type

  -- `none` is the panic
  unfoldable pub add : Manager P → Policy P → Option (Manager P)
  unfolding same_type last
  add m p =
      if same_type (last m.policies) p
      then some (record { policies = m.policies ++ p ∷ [] })
      else none

-- `Vec::sort` on `usize`
unfoldable pub insert_sorted : ℕ → List ℕ → List ℕ
insert_sorted n [] = n ∷ []
insert_sorted n (m ∷ ms) = if leb n m then n ∷ m ∷ ms else m ∷ insert_sorted n ms

unfoldable pub sort : List ℕ → List ℕ
unfolding insert_sorted
sort [] = []
sort (n ∷ ns) = insert_sorted n (sort ns)

-- `Vec::dedup`: of equal neighbours one is kept
unfoldable pub dedup_after : ℕ → List ℕ → List ℕ
dedup_after n [] = []
dedup_after n (m ∷ ms) = let rest = dedup_after m ms in if n == m then rest else m ∷ rest

unfoldable pub dedup : List ℕ → List ℕ
unfolding dedup_after
dedup [] = []
dedup (n ∷ ns) = n ∷ dedup_after n ns

unfoldable pub lists_eq : List ℕ → List ℕ → Bool
lists_eq [] [] = true
lists_eq (m ∷ ms) (n ∷ ns) = m == n && lists_eq ms ns
lists_eq _ _ = false

unfoldable pub has : List ℕ → ℕ → Bool
has [] n = false
has (m ∷ ms) n = n == m || has ms n

-- `xs.iter().filter(|x| !ys.iter().any(|y| **x == *y))`
unfoldable pub without : List ℕ → List ℕ → List ℕ
unfolding has
without ys [] = []
without ys (x ∷ xs) = if not (has ys x) then x ∷ without ys xs else without ys xs

-- `{:?}` of a vector of numbers
more_numbers : List ℕ → Text
more_numbers [] = text "]"
more_numbers (n ∷ ns) = text ", " ++ (decimal n ++ more_numbers ns)

unfoldable pub debug_numbers : List ℕ → Text
unfolding more_numbers
debug_numbers [] = text "[]"
debug_numbers (n ∷ ns) = text "[" ++ (decimal n ++ more_numbers ns)

-- the text that one rule adds for each of its masks, or for having none
inconsistencies : (Text → Text) → List Text → Text
inconsistencies f [] = []
inconsistencies f (m ∷ ms) = f m ++ inconsistencies f ms

no_such_rule : ℕ → Text
no_such_rule n =
    text "<inconsistency>Rule number "
    ++ (decimal n
        ++ text
            " present in __rule_numbers__, but it doesn't exist in the reported rules.</inconsistency>")

-- `rule_number > 0 && rule_number <= len`, and the row of the rule
rule_text : (ℕ → Text → Text) → List (List Text) → ℕ → Text
unfolding inconsistencies no_such_rule
rule_text f rows n =
    if ltb 0 n && leb n (length rows)
    then elim (get_elem? rows (n - 1)) [ none ↦ [] | some masks ↦ inconsistencies (f n) masks ]
    else no_such_rule n

rule_texts : (ℕ → Text → Text) → List (List Text) → List ℕ → Text
unfolding rule_text
rule_texts f rows [] = []
rule_texts f rows (n ∷ ns) = rule_text f rows n ++ rule_texts f rows ns

not_reported : ℕ → Text → Text
not_reported n mask =
    text "<inconsistency>"
    ++ (decimal n
        ++ (text " was not present in rule numbers, but \""
            ++ (mask
                ++ (text "\" was set.<resolution>Unset \""
                    ++ (mask
                        ++ (text "\" if the context doesn't match or add "
                            ++ (decimal n
                                ++ text
                                    " to \"__rule_numbers__\" if the rule matches.</resolution></inconsistency>")))))))

not_set : ℕ → Text → Text
not_set n mask =
    text "<inconsistency>"
    ++ (decimal n
        ++ (text " was present in rule numbers, but \""
            ++ (mask
                ++ (text "\" was not set.<resolution>Set \""
                    ++ (mask
                        ++ (text "\" if the context matches or remove "
                            ++ (decimal n
                                ++ text
                                    " from \"__rule_numbers__\" if the rule does not match.</resolution></inconsistency>")))))))

-- the text after the heading, which is there only if a rule was reported in vain
missing_text : List (List Text) → List ℕ → Text
unfolding rule_texts not_set
missing_text rows [] = []
missing_text rows (n ∷ ns) =
    text "\n\nYou reported the following rules but did not output their JSON:\n"
    ++ rule_texts not_set rows (n ∷ ns)

-- `content` of the answer to an inconsistent output
unfoldable pub explanation : List (List Text) → List ℕ → List ℕ → Text
unfolding rule_texts not_reported missing_text
explanation rows empirical reported =
    text
      "<instruction>The reported rule numbers do not match the fields that were output.  Re-evaluate your output to resolve the following inconsistencies.</instruction>"
    ++ (rule_texts not_reported rows (without reported empirical)
        ++ missing_text rows (without empirical reported))
