-- ===== src/Masks/Apply/Matches/Arrays.antt =====
-- The masks of array fields.
use policyai.Prelude.{ℕ, Text, refl, sym, Option, none, some, List, [], ◌∷◌, append-nil}
use policyai.Json.{Platform, Value}
use policyai.Masks.{StringArrayMask}
use policyai.Report.{Report}
use policyai.Report.Values.Invariant.{Ends, IsWellFormed}
use policyai.Report.Values.Totality.{string_array-Reports, empty_array-Reports}
use policyai.Masks.Apply.{apply_string_array, strings_found, extract_strings, report_each}
use policyai.Masks.Apply.Matches.{
  note_each, strings_matches, Other, string_array_matches, Applied, Applied-same, Applied-bind,
  noted_as, unchanged,
}

module _ {P : Platform} where
  report_each-Applied :
      (i : ℕ) (name : Text) (ss : List Text) (r : Report P)
      → IsWellFormed r
      → Ends (report_each i name ss r) (Applied (note_each i ss) (Other name) r)
  unfolding report_each
  report_each-Applied i name [] r h = unchanged (Other name) r h
  report_each-Applied i name (s ∷ ss) r h =
      Applied-bind (i ∷ []) (note_each i ss) (Other name) r _ (report_each i name ss)
        (noted_as i name r _ (string_array-Reports i name s r h))
        (λ s' w. report_each-Applied i name ss s' w)

  strings_found-Applied :
      (found : Option (List Text)) (m : StringArrayMask) (r : Report P)
      → IsWellFormed r
      → Ends (strings_found found m r) (Applied (strings_matches found m) (Other m.name) r)
  unfolding strings_found
  strings_found-Applied none m r h =
      Applied-same [] (Other m.name) h refl refl (sym (append-nil _)) refl
  strings_found-Applied (some []) m r h = noted_as _ _ r _ (empty_array-Reports _ _ r h)
  strings_found-Applied (some (s ∷ ss)) m r h = report_each-Applied _ _ (s ∷ ss) r h

  -- On a well-formed report the mask of an array field never panics. It notes its rule once for each
  -- string that it extracts, once for an empty array, and not at all where no strings are found; it
  -- leaves the report well formed, and it reports nothing for any other field.
  pub apply_string_array-Applied :
      (found : Option (Value P)) (m : StringArrayMask) (r : Report P)
      → IsWellFormed r
      → Ends
          (apply_string_array found m r)
          (Applied (string_array_matches found m) (Other m.name) r)
  unfolding apply_string_array
  apply_string_array-Applied none m r h = unchanged (Other m.name) r h
  apply_string_array-Applied (some v) m r h = strings_found-Applied (extract_strings 128 v) m r h
