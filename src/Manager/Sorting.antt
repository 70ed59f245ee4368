-- ===== src/Manager/Sorting.antt =====
-- Sorting and removing equal neighbours changes no membership.
use policyai.Prelude.{ℕ, ◌≡◌, refl, ap, ◌∙◌, true, ◌||◌, List, [], ◌∷◌, arith, ◌==◌}
use policyai.Manager.{sort, insert_sorted, dedup, dedup_after, lists_eq, has}

has-insert_sorted :
    (n : ℕ) (ms : List ℕ) (i : ℕ) → has (insert_sorted n ms) i ≡ (i == n || has ms i)
unfolding has insert_sorted
has-insert_sorted n [] i = refl
has-insert_sorted n (m ∷ ms) i = ground (arith, has-insert_sorted n ms i)

pub has-sort : (ns : List ℕ) (i : ℕ) → has (sort ns) i ≡ has ns i
unfolding has sort
has-sort [] i = refl
has-sort (n ∷ ns) i = has-insert_sorted n (sort ns) i ∙ ap (λ b. i == n || b) (has-sort ns i)

has-dedup_after :
    (n : ℕ) (ms : List ℕ) (i : ℕ) → (i == n || has (dedup_after n ms) i) ≡ (i == n || has ms i)
unfolding has dedup_after
has-dedup_after n [] i = refl
has-dedup_after n (m ∷ ms) i = ground (arith, has-dedup_after m ms i)

pub has-dedup : (ns : List ℕ) (i : ℕ) → has (dedup ns) i ≡ has ns i
unfolding has dedup
has-dedup [] i = refl
has-dedup (n ∷ ns) i = has-dedup_after n ns i

pub has-dedup-sort : (ns : List ℕ) (i : ℕ) → has (dedup (sort ns)) i ≡ has ns i
has-dedup-sort ns i = has-dedup (sort ns) i ∙ has-sort ns i

pub lists_eq→eq : (ms ns : List ℕ) → lists_eq ms ns ≡ true → ms ≡ ns
unfolding lists_eq
lists_eq→eq (m ∷ ms) (n ∷ ns) h = ground (arith, lists_eq→eq ms ns)
lists_eq→eq [] [] h = refl
lists_eq→eq _ _ h = cc
