-- ===== src/Report/Values/Arrays.antt =====
-- The strings that a field of strings ends with.
use policyai.Prelude.{
  ℕ, Text, text_eq, text_eq_iff, ◌≡◌, refl, sym, ap, Bool, true, false, ◌||◌, none, some, List, [],
  ◌∷◌, ◌++◌, inl, inr, Bool-cases, if◌then◌else◌, arith,
}
use mathlib.Core.Path.{subst}
use policyai.Json.{Platform, Value, array, string, Values, nil, cons, push, value_get}
use policyai.Json.Maps.{get-insert_self}
use policyai.Json.Equality.{value_eq, contains_value}
use policyai.Report.{Report, report_policy_index}
use policyai.Report.Values.{store, touch, array_at, report_string_array}
use policyai.Report.Values.Invariant.{Ends, IsWellFormed, reported, noted, store_lem}

abbrev pub member : List Text → Text → Bool
member [] s = false
member (t ∷ ts) s = if text_eq t s then true else member ts s

-- no text stands twice
abbrev pub Distinct : List Text → Type 0
Distinct [] = Unit
Distinct (t ∷ ts) = (member ts t ≡ false) × Distinct ts

-- a text is put at the end if it is not there yet
abbrev pub extended : List Text → Text → List Text
extended l s = if member l s then l else l ++ s ∷ []

member-append : (l : List Text) (s x : Text) → member (l ++ s ∷ []) x ≡ (member l x || text_eq s x)
member-append [] s x = ground arith
member-append (t ∷ ts) s x = ground (arith, member-append ts s x)

Distinct-append :
    (l : List Text) (s : Text) → Distinct l → member l s ≡ false → Distinct (l ++ s ∷ [])
Distinct-append [] s d h = (refl, tt)
Distinct-append (t ∷ ts) s d h = (
  ground (arith, member-append ts s t, d.0, h, text_eq_iff t s, text_eq_iff s t),
  Distinct-append ts s d.1 (ground (arith, h)),
)

pub Distinct-extended : (l : List Text) (s : Text) → Distinct l → Distinct (extended l s)
Distinct-extended l s d = elim (Bool-cases (member l s)) [
  | inl there ↦ rw there d
  | inr fresh ↦ rw fresh (Distinct-append l s d fresh)
]

pub member-extended :
    (l : List Text) (s x : Text) → member (extended l s) x ≡ (member l x || text_eq s x)
member-extended l s x = elim (Bool-cases (member l s)) [
  | inl there ↦ rw there (elim (Bool-cases (text_eq s x)) [
    | inl same ↦ ground (arith, ap (member l) ((text_eq_iff s x).0 same), there, same)
    | inr other ↦ ground (arith, other)
  ])
  | inr fresh ↦ rw fresh (member-append l s x)
]

module _ {P : Platform} where
  -- the array of the texts
  abbrev pub strings_of : List Text → Values P
  strings_of [] = nil
  strings_of (s ∷ ss) = cons (string s) (strings_of ss)

module _ (P : Platform) where
  contains-strings_of :
      (l : List Text) (s : Text) → contains_value {P = P} (strings_of l) (string s) ≡ member l s
  unfolding contains_value value_eq
  contains-strings_of [] s = refl
  contains-strings_of (t ∷ ts) s =
      ap (λ b. if text_eq t s then true else b) (contains-strings_of ts s)

  push-strings_of :
      (l : List Text) (s : Text) → push {P = P} (strings_of l) (string s) ≡ strings_of (l ++ s ∷ [])
  unfolding push
  push-strings_of [] s = refl
  push-strings_of (t ∷ ts) s = ap (cons (string t)) (push-strings_of ts s)

module _ {P : Platform} where
  -- what is stored is found
  pub stored :
      (field : Text) (v : Value P) (r : Report P)
      → IsWellFormed r
      → Ends (store field v r) (λ r'. reported r' field ≡ some v)
  unfolding value_get
  stored field v r h = rw (store_lem field v r h) (get-insert_self h.fields field v)

  array_at-extended :
      (field s : Text) (l : List Text) (r : Report P)
      → IsWellFormed r
      → reported r field ≡ some (array (strings_of l))
      → Ends
          (array_at (some (array (strings_of l))) field s r)
          (λ r'. reported r' field ≡ some (array (strings_of (extended l s))))
  unfolding array_at touch
  array_at-extended field s l r h e = elim (Bool-cases (member l s)) [
    | inl there ↦ rw (contains-strings_of P l s, there) e
    | inr fresh ↦
        rw (contains-strings_of P l s, fresh)
          (rw (push-strings_of P l s) (stored field (array (strings_of (l ++ s ∷ []))) r h))
  ]

  pub report_string_array-first :
      (i : ℕ) (field s : Text) (r : Report P)
      → IsWellFormed r
      → reported r field ≡ none
      → Ends
          (report_string_array i field s r)
          (λ r'. reported r' field ≡ some (array (strings_of (s ∷ []))))
  unfolding report_string_array array_at
  report_string_array-first i field s r h e =
      subst
        (λ w.
          Ends (array_at w field s (report_policy_index i r))
            (λ r'. reported r' field ≡ some (array (strings_of (s ∷ [])))))
        (sym e) (stored field _ (report_policy_index i r) (noted i r h))

  pub report_string_array-extended :
      (i : ℕ) (field s : Text) (l : List Text) (r : Report P)
      → IsWellFormed r
      → reported r field ≡ some (array (strings_of l))
      → Ends
          (report_string_array i field s r)
          (λ r'. reported r' field ≡ some (array (strings_of (extended l s))))
  unfolding report_string_array
  report_string_array-extended i field s l r h e =
      subst
        (λ w.
          Ends (array_at w field s (report_policy_index i r))
            (λ r'. reported r' field ≡ some (array (strings_of (extended l s)))))
        (sym e) (array_at-extended field s l (report_policy_index i r) (noted i r h) e)
