-- ===== src/Regressions/Pairs.antt =====
-- What `arrays_match_unordered` of src/bin/policyai-extract-regressions.rs finds: partners for the
-- elements.
use policyai.Prelude.{
  ◌≡◌, refl, sym, ap, Bool, true, false, Option, none, some, List, [], ◌∷◌, ◌++◌, ◌==◌, ==_iff,
  if◌then◌else◌, inl, inr, ◌⊎◌,
}
use policyai.Json.{Platform, Value, array, Values, nil, cons, to_list}
use policyai.Evaluate.{Arithmetic}
use policyai.Regressions.Options.{elim_true, if-true}
use policyai.Regressions.{
  Args, Comparison, count, use_first, keep, unused, values_match_recursive, match_all,
}

-- Each element of the first list has a partner in the second, related to it, and no two have the same:
-- the partner of an element is taken out of the list for those after it.
pub data Partners {ℓ} {A : Type ℓ} (R : A → A → Type 0) : List A → List A → Type ℓ where
  done : (bs : List A) → Partners R [] bs
  pair :
      (a : A) (rest : List A) (before : List A) (b : A) (after : List A)
      → R a b
      → Partners R rest (before ++ after)
      → Partners R (a ∷ rest) (before ++ b ∷ after)

at_true : (b c d : Bool) → b ≡ true → elim b [ true ↦ c | false ↦ d ] ≡ true → c ≡ true
at_true true c d e h = h
at_true false c d e h = absurd (cc)

module _ {P : Platform} where
  -- the elements that are not used
  unfoldable pub free : List (Bool × Value P) → List (Value P)
  free [] = []
  free ((true, b) ∷ bs) = free bs
  free ((false, b) ∷ bs) = b ∷ free bs

  free-unused : (vs : Values P) → free (unused vs) ≡ to_list vs
  unfolding free
  free-unused nil = refl
  free-unused (cons v vs) = ap (λ l. v ∷ l) (free-unused vs)

  -- what was used: an element that was free, and that matches
  Used : (Value P → Bool) → List (Bool × Value P) → List (Bool × Value P) → Type 0
  Used matches bs bs' =
      (before : List (Value P)) × (b : Value P) × (after : List (Value P)) × (free bs
        ≡ before ++ b ∷ after)
      × (free bs' ≡ before ++ after)
      × (matches b ≡ true)

  Used-keep :
      (matches : Value P → Bool) (b : Bool × Value P) (bs bs' : List (Bool × Value P))
      → Used matches bs bs'
      → Used matches (b ∷ bs) (b ∷ bs')
  unfolding Used free
  Used-keep matches (true, v) bs bs' h = h
  Used-keep matches (false, v) bs bs' (before, b, after, e, e', m) =
      (v ∷ before, b, after, ap (λ l. v ∷ l) e, ap (λ l. v ∷ l) e', m)

  keep-some :
      (b : Bool × Value P) (o : Option (List (Bool × Value P))) (bs' : List (Bool × Value P))
      → keep b o ≡ some bs'
      → (bs : List (Bool × Value P)) × (o ≡ some bs) × (b ∷ bs ≡ bs')
  unfolding keep
  keep-some b none bs' h = absurd (cc)
  keep-some b (some bs) bs' h = (bs, refl, cc)

  if-some :
      (c : Bool) (x y : Option (List (Bool × Value P))) (z : List (Bool × Value P))
      → (if c then x else y) ≡ some z
      → ((c ≡ true) × (x ≡ some z)) ⊎ (y ≡ some z)
  if-some true x y z h = inl (refl, h)
  if-some false x y z h = inr h

  use_first-Used :
      (matches : Value P → Bool) (bs bs' : List (Bool × Value P))
      → use_first matches bs ≡ some bs'
      → Used matches bs bs'
  unfolding use_first Used free
  use_first-Used matches [] bs' h = absurd (cc)
  use_first-Used matches ((true, v) ∷ bs) bs' h =
      let (bs'', e, k) = keep-some (true, v) (use_first matches bs) bs' h in
      rw (sym k) (Used-keep matches (true, v) bs bs'' (use_first-Used matches bs bs'' e))
  use_first-Used matches ((false, v) ∷ bs) bs' h =
      elim (if-some (matches v) (some ((true, v) ∷ bs)) (keep (false, v) (use_first matches bs)) bs'
        h) [
          | inl (m, e) ↦
              (let e' : (true, v) ∷ bs ≡ bs' = cc in ([], v, free bs, refl, rw (sym e') refl, m))
          | inr k ↦
              let (bs'', e, k') = keep-some (false, v) (use_first matches bs) bs' k in
              rw (sym k') (Used-keep matches (false, v) bs bs'' (use_first-Used matches bs bs'' e))
        ]

module _ {P : Platform} (A : Arithmetic P) (C : Comparison P) (o : Args) where
  unfoldable pub Matches : Value P → Value P → Type 0
  Matches v w = values_match_recursive A C o v w ≡ true

  match_all-Partners :
      (vs : Values P) (bs : List (Bool × Value P))
      → match_all A C o vs bs ≡ true
      → Partners Matches (to_list vs) (free bs)
  unfolding match_all Used Matches
  match_all-Partners nil bs h = done (free bs)
  match_all-Partners (cons v vs) bs h =
      let (bs', e, k) =
        elim_true (λ bs'. match_all A C o vs bs') (use_first (values_match_recursive A C o v) bs)
          h in
      let (before, w, after, f, f', m) = use_first-Used (values_match_recursive A C o v) bs bs' e in
      rw f (pair v (to_list vs) before w after m (rw (sym f') (match_all-Partners vs bs' k)))

  -- Where arrays match without regard to order, they have the same length, and each element of the
  -- first has a partner in the second that it matches, and no two have the same partner.
  pub values_match_recursive-Partners :
      (vs ws : Values P)
      → o.ignore_array_order ≡ true
      → values_match_recursive A C o (array vs) (array ws) ≡ true
      → (count vs ≡ count ws) × Partners Matches (to_list vs) (to_list ws)
  unfolding values_match_recursive
  values_match_recursive-Partners vs ws i h =
      let (n, k) =
        if-true (count vs == count ws) (match_all A C o vs (unused ws))
          (at_true o.ignore_array_order _ _ i h) in
      (
        (==_iff (count vs) (count ws)).0 n,
        rw (sym (free-unused ws)) (match_all-Partners vs (unused ws) k),
      )
