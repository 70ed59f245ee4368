-- ===== src/Report/Output.antt =====
-- `Report::value`: the defaults, overridden by what was reported.
use policyai.Prelude.{Text, ◌≡◌, refl, Option, none, some}
use policyai.Json.{Platform, Value, object, Map, end, entry, insert, extend, value_get, index_set}
use policyai.Json.Maps.{or_else, get-extend-Unique}
use policyai.Report.{Report, or_empty, assign_all, merge, merged_value}
use policyai.Report.Values.Invariant.{Ends, IsWellFormed, reported}

module _ {P : Platform} where
  assign_all_lem : (m n : Map P) → assign_all (object m) n ≡ some (object (extend m n))
  unfolding assign_all index_set extend
  assign_all_lem m end = refl
  assign_all_lem m (entry k v n) = assign_all_lem (insert m k v) n

  merge_lem :
      (m n : Map P) (w : Option (Value P))
      → or_empty w ≡ object n
      → merge (object m) w ≡ some (object (extend m n))
  unfolding merge
  merge_lem m end none e = unfold extend in refl
  merge_lem m (entry k v n) none e = cc
  merge_lem m n (some v) e = rw (e, merge) (assign_all_lem m n)

  merge_eq :
      (r : Report P) (h : IsWellFormed r)
      → merge (or_empty r.default) r.value ≡ some (object (extend h.defaults h.fields))
  merge_eq r h = rw h.default_is (merge_lem h.defaults h.fields r.value h.value_is)

  -- The value of a well-formed report is computed without a panic, and has at every key what was
  -- reported for it, or, where nothing was reported, what the defaults have there.
  pub merged_value_lem :
      (r : Report P)
      → IsWellFormed r
      → Ends (merged_value r) (λ v.
        (k : Text) → value_get v k ≡ or_else (reported r k) (value_get (or_empty r.default) k))
  unfolding merged_value
  merged_value_lem r h = rw (merge_eq r h) (λ k.
      unfold value_get in
      rw (h.value_is, h.default_is) (get-extend-Unique h.defaults h.fields k h.unique))
