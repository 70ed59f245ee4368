-- ===== src/Evaluate/Baseline.antt =====
-- `clean_baseline` of src/bin/policyai-evaluate-policies.rs, and `Map::remove` of serde_json, which with
-- `preserve_order` puts the last entry in the place of the one removed.
use policyai.Prelude.{Text, text, text_eq, text_eq_iff, ◌≡◌, refl, none, arith, if◌then◌else◌}
use policyai.Json.{Platform, Value, object, Map, end, entry, get}
use policyai.Json.Maps.{Unique}

module _ {P : Platform} where
  -- the last entry of a map that begins with the entry, and the entries before it
  unfoldable split_last : Text → Value P → Map P → (Text × Value P) × Map P
  split_last k v end = ((k, v), end)
  split_last k v (entry j w m) = let r = split_last j w m in (r.0, entry k v r.1)

  -- the last entry first
  unfoldable fill : Map P → Map P
  unfolding split_last
  fill end = end
  fill (entry k v m) = let r = split_last k v m in entry r.0.0 r.0.1 r.1

  unfoldable swap_remove : Map P → Text → Map P
  unfolding fill
  swap_remove end k = end
  swap_remove (entry j v m) k = if text_eq j k then fill m else entry j v (swap_remove m k)

  unfoldable clean_baseline : Value P → Value P
  unfolding swap_remove
  clean_baseline (object m) = object (swap_remove m (text "__rule_numbers__"))
  clean_baseline v = v

  get-fill : (m : Map P) (i : Text) → Unique m → get (fill m) i ≡ get m i
  unfolding fill split_last get
  get-fill end i u = refl
  get-fill (entry k v end) i u = refl
  get-fill (entry k v (entry j w m)) i u = ground (
    arith,
    get-fill (entry j w m) i u.1,
    get-fill (entry j w m) k u.1,
    text_eq_iff k i,
    text_eq_iff (split_last j w m).0.0 i,
    text_eq_iff (split_last j w m).0.0 k,
    u.0,
  )

  -- The key is removed, and the others have the values that they had.
  get-swap_remove :
      (m : Map P) (k i : Text)
      → Unique m
      → get (swap_remove m k) i ≡ (if text_eq k i then none else get m i)
  unfolding swap_remove get
  get-swap_remove end k i u = ground arith
  get-swap_remove (entry j v m) k i u = ground (
    arith,
    get-swap_remove m k i u.1,
    get-fill m i u.1,
    text_eq_iff j k,
    text_eq_iff j i,
    text_eq_iff k i,
    u.0,
  )
