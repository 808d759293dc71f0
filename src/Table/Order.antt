-- ===== src/Table/Order.antt =====
-- Comparators of `sort`, by the sign of their result, and the order of the rows that they give.
use chirpstack_simulator.Prelude.{
  ◌≡◌, refl, Bool, true, false, Ordering, compare, arith, List, [], ◌∷◌, Text, text_compare,
  if◌then◌else◌,
}
use chirpstack_simulator.Prelude.Sorting.{sort, IsSorted, sort-IsSorted}
use chirpstack_simulator.Table.Defs.{Dir, asc, desc, opposite, not_after, directed}

-- A comparator that `sort` may be given: antisymmetric in its sign, and transitive.
pub record IsOrder {ℓ} {A : Type ℓ} (cmp : A → A → Ordering) : Type ℓ where
  pub swapped : (a b : A) → cmp b a ≡ opposite (cmp a b)
  pub trans :
      (a b c : A)
      → not_after (cmp a b) ≡ true
      → not_after (cmp b c) ≡ true
      → not_after (cmp a c) ≡ true

module _ {ℓ} {A : Type ℓ} {cmp : A → A → Ordering} (ord : IsOrder cmp) where
  directed_total : (d : Dir) (a b : A) → directed d cmp a b ≡ false → directed d cmp b a ≡ true
  directed_total asc a b h = ground (arith, ord.swapped a b)
  directed_total desc a b h = ground (arith, ord.swapped a b)

  directed_trans :
      (d : Dir) (a b c : A)
      → directed d cmp a b ≡ true
      → directed d cmp b c ≡ true
      → directed d cmp a c ≡ true
  directed_trans asc a b c h k = ord.trans a b c h k
  directed_trans desc a b c h k =
      rw (← ord.swapped a c) (ord.trans c b a (rw (ord.swapped b c) k) (rw (ord.swapped a b) h))

  pub sort_directed-IsSorted :
      (d : Dir) (xs : List A) → IsSorted (directed d cmp) (sort (directed d cmp) xs)
  sort_directed-IsSorted d = sort-IsSorted (directed d cmp) (directed_total d) (directed_trans d)

pub on-IsOrder {ℓ κ} :
    {A : Type ℓ} {K : Type κ} (f : A → K) {cmp : K → K → Ordering}
    → IsOrder cmp
    → IsOrder (λ a b. cmp (f a) (f b))
on-IsOrder f o = record {
  swapped = λ a b. o.swapped (f a) (f b);
  trans = λ a b c. o.trans (f a) (f b) (f c);
}

-- A test that does not depend on the items chooses between two comparators.
pub if-IsOrder {ℓ} :
    {A : Type ℓ} (t : Bool) {cmp other : A → A → Ordering}
    → IsOrder cmp
    → IsOrder other
    → IsOrder (λ a b. if t then cmp a b else other a b)
if-IsOrder true o p = o
if-IsOrder false o p = p

pub compare-IsOrder : IsOrder compare
compare-IsOrder = record { swapped = λ a b. ground arith; trans = λ a b c h k. ground arith }

text_compare-swapped : (a b : Text) → text_compare b a ≡ opposite (text_compare a b)
text_compare-swapped [] [] = refl
text_compare-swapped [] (y ∷ ys) = refl
text_compare-swapped (x ∷ xs) [] = refl
text_compare-swapped (x ∷ xs) (y ∷ ys) = ground (arith, text_compare-swapped xs ys)

text_compare_trans :
    (a b c : Text)
    → not_after (text_compare a b) ≡ true
    → not_after (text_compare b c) ≡ true
    → not_after (text_compare a c) ≡ true
text_compare_trans [] [] [] h k = refl
text_compare_trans [] [] (z ∷ zs) h k = refl
text_compare_trans [] (y ∷ ys) [] h k = cc
text_compare_trans [] (y ∷ ys) (z ∷ zs) h k = refl
text_compare_trans (x ∷ xs) [] c h k = cc
text_compare_trans (x ∷ xs) (y ∷ ys) [] h k = cc
text_compare_trans (x ∷ xs) (y ∷ ys) (z ∷ zs) h k = ground (arith, text_compare_trans xs ys zs)

pub text_compare-IsOrder : IsOrder text_compare
text_compare-IsOrder = record { swapped = text_compare-swapped; trans = text_compare_trans }
