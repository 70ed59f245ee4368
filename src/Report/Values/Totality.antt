-- ===== src/Report/Values/Totality.antt =====
-- Every report of a string of an array ends without a panic in a well-formed report, and touches its field only.
use policyai.Prelude.{
  ℕ, Text, Option, none, some, inl, inr, Bool-cases, refl, ap, sym, ◌≡◌, if◌then◌else◌,
}
use policyai.Json.{
  Platform, Value, string, array, object, nil, Map, Values, cons, push, get, value_get,
}
use policyai.Json.Maps.{get-insert_self}
use policyai.Report.Values.Arrays.{stored}
use policyai.Json.Equality.{contains_value}
use policyai.Report.{Report}
use policyai.Report.Values.{
  touch, or_insert, array_at, report_string_array, init_empty_string_array,
}
use policyai.Report.Values.Invariant.{
  store_lem, Ends, Ends-imp, IsWellFormed, Changes, Changes-store, Changes-quiet, Reports,
  Reports-Changes, noted, reported, Ends-both,
}

module _ {P : Platform} where
  Changes-array_at :
      (w : Option (Value P)) (field v : Text) (r : Report P)
      → IsWellFormed r
      → Ends (array_at w field v r) (Changes field r)
  unfolding array_at touch
  Changes-array_at none field v r h = Changes-store field _ r h
  Changes-array_at (some (array vs)) field v r h =
      elim (Bool-cases (contains_value vs (string v))) [
        | inl there ↦ rw there (Changes-quiet field h refl refl refl refl)
        | inr fresh ↦ rw fresh (Changes-store field _ r h)
      ]
  Changes-array_at (some _) field v r h = Changes-store field _ r h

  -- for a string of an array
  pub string_array-Reports :
      (i : ℕ) (field v : Text) (r : Report P)
      → IsWellFormed r
      → Ends (report_string_array i field v r) (Reports i field r)
  unfolding report_string_array
  string_array-Reports i field v r h =
      Ends-imp _ (Reports-Changes i field r) (Changes-array_at _ field v _ (noted i r h))

  -- the array after a string was reported, by what the field held
  abbrev pub with_string : Option (Value P) → Text → Values P
  with_string (some (array vs)) v = if contains_value vs (string v) then vs else push vs (string v)
  with_string _ v = cons (string v) nil

  array_at-with_string :
      (w : Option (Value P)) (field v : Text) (r : Report P)
      → IsWellFormed r
      → reported r field ≡ w
      → Ends (array_at w field v r) (λ r'. reported r' field ≡ some (array (with_string w v)))
  unfolding array_at touch
  array_at-with_string none field v r h e = stored field _ r h
  array_at-with_string (some (array vs)) field v r h e =
      elim (Bool-cases (contains_value vs (string v))) [
        | inl there ↦ rw there e
        | inr fresh ↦ rw fresh (stored field (array (push vs (string v))) r h)
      ]
  array_at-with_string (some _) field v r h e = stored field _ r h

  -- A report of a string for an array field never panics on a well-formed report. The field then holds
  -- the array that it held, with the string at the end if it was not in there, or a new array of the
  -- string alone in place of anything else. The result is well formed, lists the rule after those before,
  -- and differs in no other field, and not in the messages, the defaults, the answer or any of the masks.
  pub report_string_array-Reports :
      (i : ℕ) (field v : Text) (r : Report P)
      → IsWellFormed r
      → Ends (report_string_array i field v r) (λ r'.
        Reports i field r r'
        × (reported r' field ≡ some (array (with_string (reported r field) v))))
  unfolding report_string_array
  report_string_array-Reports i field v r h =
      Ends-both _ _ _ (string_array-Reports i field v r h)
        (array_at-with_string _ field v _ (noted i r h) refl)

  Changes-empty_array :
      (w : Option (Value P)) (field : Text) (r : Report P) (h : IsWellFormed r)
      → Changes field r (record r { value = some (object (or_insert w h.fields field)) })
  unfolding or_insert
  Changes-empty_array (some _) field r h =
      Changes-quiet field h (ap some (sym h.value_is)) refl refl refl
  Changes-empty_array none field r h =
      rw (store_lem field (array nil) r h) at (Changes-store field (array nil) r h)

  pub empty_array-Reports :
      (i : ℕ) (field : Text) (r : Report P)
      → IsWellFormed r
      → Ends (init_empty_string_array i field r) (Reports i field r)
  unfolding init_empty_string_array
  empty_array-Reports i field r h =
      rw h.value_is (Reports-Changes i field r _ (Changes-empty_array _ field _ (noted i r h)))

  -- what an array field holds after it was initialised, by what it held
  abbrev pub initialised : Option (Value P) → Value P
  initialised none = array nil
  initialised (some v) = v

  get-or_insert-initialised :
      (w : Option (Value P)) (m : Map P) (field : Text)
      → get m field ≡ w
      → get (or_insert w m field) field ≡ some (initialised w)
  unfolding or_insert
  get-or_insert-initialised none m field e = get-insert_self m field (array nil)
  get-or_insert-initialised (some v) m field e = e

  empty_array-initialised :
      (i : ℕ) (field : Text) (r : Report P)
      → IsWellFormed r
      → Ends
          (init_empty_string_array i field r)
          (λ r'. reported r' field ≡ some (initialised (reported r field)))
  unfolding init_empty_string_array value_get
  empty_array-initialised i field r h =
      rw h.value_is (get-or_insert-initialised (get h.fields field) h.fields field refl)

  -- Initialising an array field never panics on a well-formed report. The field then holds an empty
  -- array if it held nothing, and what it held otherwise. The result is well formed, lists the rule after
  -- those before, and differs in no other field, and not in the messages, the defaults, the answer or any
  -- of the masks.
  pub init_empty_string_array-Reports :
      (i : ℕ) (field : Text) (r : Report P)
      → IsWellFormed r
      → Ends
          (init_empty_string_array i field r)
          (λ r'. Reports i field r r' × (reported r' field ≡ some (initialised (reported r field))))
  init_empty_string_array-Reports i field r h =
      Ends-both _ _ _ (empty_array-Reports i field r h) (empty_array-initialised i field r h)
