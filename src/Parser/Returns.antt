-- ===== src/Parser/Returns.antt =====
-- What holds of the result of reading, with no error and no want of fuel.
use policyai.Prelude.{◌≡◌, refl, Bool, true, false, if◌then◌else◌}
use policyai.Parser.{Parsed, ok, err, out_of_fuel, ◌>>=◌}

-- The reading ends, and without an error its result has the property.
unfoldable pub Returns {ℓ} : {A : Type ℓ} → (A → Type 0) → Parsed A → Type 0
Returns Q (ok a) = Q a
Returns Q (err e) = Unit
Returns Q out_of_fuel = ⊥

module _ {ℓ} {A : Type ℓ} where
  pub Returns-imp :
      (Q R : A → Type 0) (r : Parsed A) → ((a : A) → Q a → R a) → Returns Q r → Returns R r
  unfolding Returns
  Returns-imp Q R (ok a) f h = f a h
  Returns-imp Q R (err e) f h = tt
  Returns-imp Q R out_of_fuel f h = h

  pub Returns-if :
      (Q : A → Type 0) (b : Bool) (r s : Parsed A)
      → (b ≡ true → Returns Q r)
      → (b ≡ false → Returns Q s)
      → Returns Q (if b then r else s)
  Returns-if Q true r s h k = h refl
  Returns-if Q false r s h k = k refl

  pub Returns-bind {κ} :
      {B : Type κ} (Q : A → Type 0) (R : B → Type 0) (r : Parsed A) (f : A → Parsed B)
      → Returns Q r
      → ((a : A) → Q a → Returns R (f a))
      → Returns R (r >>= f)
  unfolding Returns
  Returns-bind Q R (ok a) f h k = k a h
  Returns-bind Q R (err e) f h k = tt
  Returns-bind Q R out_of_fuel f h k = h

  pub Returns-elim :
      (Q : A → Type 0) (b : Bool) (r s : Parsed A)
      → Returns Q r
      → Returns Q s
      → Returns Q (elim b [ true ↦ r | false ↦ s ])
  Returns-elim Q true r s h k = h
  Returns-elim Q false r s h k = k
