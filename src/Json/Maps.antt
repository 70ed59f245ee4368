-- ===== src/Json/Maps.antt =====
-- The laws of the maps: what a lookup finds after an insertion or an extension.
use policyai.Prelude.{
  sym, ap, Option, inl, inr, Bool-cases, Text, text_eq, text_eq_iff, text_eq_refl, ◌≡◌, refl, ◌∙◌,
  none, some, arith, if◌then◌else◌,
}
use policyai.Json.{Platform, Value, Map, end, entry, get, insert, extend}

module _ {P : Platform} where
  pub get-insert :
      (m : Map P) (k j : Text) (v : Value P)
      → get (insert m k v) j ≡ (if text_eq k j then some v else get m j)
  unfolding get insert
  get-insert end k j v = refl
  get-insert (entry i w m) k j v =
      ground (arith, text_eq_iff i k, text_eq_iff i j, text_eq_iff k j, get-insert m k j v)

  pub get-insert_self : (m : Map P) (k : Text) (v : Value P) → get (insert m k v) k ≡ some v
  get-insert_self m k v = ground (arith, get-insert m k k v, text_eq_refl k)

  -- the keys of the second map win
  pub get-extend : (m n : Map P) (j : Text) → get n j ≡ none → get (extend m n) j ≡ get m j
  unfolding get extend
  get-extend m end j h = refl
  get-extend m (entry k v n) j h =
      get-extend (insert m k v) n j (ground arith) ∙ ground (arith, get-insert m k j v)

  -- no key stands twice
  abbrev pub Unique : Map P → Type 0
  Unique end = Unit
  Unique (entry k v m) = (get m k ≡ none) × Unique m

  pub Unique-insert : (m : Map P) (k : Text) (v : Value P) → Unique m → Unique (insert m k v)
  unfolding insert
  Unique-insert end k v u = (unfold get in refl, tt)
  Unique-insert (entry j w m) k v u = elim (Bool-cases (text_eq j k)) [
    | inl same ↦ rw same (u.0, u.1)
    | inr other ↦ rw other (
      ground (arith, get-insert m k j v, text_eq_iff k j, text_eq_iff j k, u.0),
      Unique-insert m k v u.1,
    )
  ]

  -- a lookup in one map, and then in another
  abbrev pub or_else : Option (Value P) → Option (Value P) → Option (Value P)
  or_else (some v) w = some v
  or_else none w = w

  pub get-extend-Unique :
      (m n : Map P) (k : Text) → Unique n → get (extend m n) k ≡ or_else (get n k) (get m k)
  unfolding extend get
  get-extend-Unique m end k u = refl
  get-extend-Unique m (entry j v n) k u =
      ground
        (arith, get-extend-Unique (insert m j v) n k u.1, get-insert m j k v, text_eq_iff j k, u.0)

  pub or_else-none : (a : Option (Value P)) → or_else a none ≡ a
  or_else-none none = refl
  or_else-none (some a) = refl

  -- one entry that is there stays
  pub get-or_insert :
      (o : Option (Value P)) (m : Map P) (k j : Text) (v : Value P)
      → get m k ≡ o
      → get (elim o [ none ↦ insert m k v | some _ ↦ m ]) j
        ≡ or_else (get m j) (if text_eq k j then some v else none)
  get-or_insert none m k j v e = elim (Bool-cases (text_eq k j)) [
    | inl same ↦ get-insert m k j v ∙ rw (same, sym (ap (get m) ((text_eq_iff k j).0 same)), e) refl
    | inr other ↦ get-insert m k j v ∙ rw other (sym (or_else-none (get m j)))
  ]
  get-or_insert (some w) m k j v e = elim (Bool-cases (text_eq k j)) [
    | inl same ↦ rw (sym (ap (get m) ((text_eq_iff k j).0 same)), e) refl
    | inr other ↦ rw other (sym (or_else-none (get m j)))
  ]
