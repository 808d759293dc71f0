-- ===== src/Prelude/Sorting.antt =====
-- `Array.prototype.sort` with a comparator: stable, so an item stays behind those that compare equal.
use Prim.Native.Nat.{suc}
use mathlib.Core.Path.{◌≡◌, refl, ◌∙◌}
use mathlib.Core.Bool.{Bool, true, false}
use mathlib.Core.List.{List, [], ◌∷◌, Perm, ◌++◌}
use mathlib.Core.List.Perm
use native.Mathlib.Omega.{arith}
use chirpstack_simulator.Prelude.Tests.{if◌then◌else◌, Bool-cases}
use chirpstack_simulator.Prelude.Lists.{All, length, filter_by}
use mathlib.Core.Logic.{inl, inr}
use chirpstack_simulator.Prelude.{◌++◌, filter_by-All, All-append, All-mono}

module _ {ℓ} {A : Type ℓ} (le : A → A → Bool) where
  -- `le a b` holds where the comparator of `a` and `b` is not positive.
  abbrev pub insert_sorted : A → List A → List A
  insert_sorted x [] = x ∷ []
  insert_sorted x (y ∷ ys) =
      let rest = y ∷ insert_sorted x ys in if le x y then x ∷ y ∷ ys else rest

  abbrev pub sort : List A → List A
  sort [] = []
  sort (x ∷ xs) = insert_sorted x (sort xs)

  -- Every item comes before all that follow it.
  abbrev pub IsSorted : List A → Type ℓ
  IsSorted [] = Unit
  IsSorted (x ∷ xs) = All (λ y. le x y ≡ true) xs × IsSorted xs

  insert_sorted-perm : (x : A) (ys : List A) → Perm (insert_sorted x ys) (x ∷ ys)
  insert_sorted-perm x [] = Perm.refl (x ∷ [])
  insert_sorted-perm x (y ∷ ys) = elim (Bool-cases (le x y)) [
    | inl e ↦ rw e (Perm.refl (x ∷ y ∷ ys))
    | inr e ↦ rw e (Perm.trans (Perm.cons y (insert_sorted-perm x ys)) (Perm.swap x y ys))
  ]

  pub sort-perm : (xs : List A) → Perm (sort xs) xs
  sort-perm [] = Perm.refl []
  sort-perm (x ∷ xs) = Perm.trans (insert_sorted-perm x (sort xs)) (Perm.cons x (sort-perm xs))

  insert_sorted-length : (x : A) (ys : List A) → length (insert_sorted x ys) ≡ suc (length ys)
  insert_sorted-length x [] = refl
  insert_sorted-length x (y ∷ ys) = ground (arith, insert_sorted-length x ys)

  pub length-sort : (xs : List A) → length (sort xs) ≡ length xs
  length-sort [] = refl
  length-sort (x ∷ xs) = omega (arith, insert_sorted-length x (sort xs), length-sort xs)

  insert_sorted-filter_by :
      (p : A → Bool) (x : A) (ys : List A)
      → ((a b : A) → p a ≡ true → p b ≡ true → le a b ≡ true)
      → filter_by p (insert_sorted x ys) ≡ filter_by p (x ∷ ys)
  insert_sorted-filter_by p x [] same = refl
  insert_sorted-filter_by p x (y ∷ ys) same =
      ground (arith, same x y, insert_sorted-filter_by p x ys same)

  -- Items that compare equal stay in their order.
  pub sort-filter_by :
      (p : A → Bool) (xs : List A)
      → ((a b : A) → p a ≡ true → p b ≡ true → le a b ≡ true)
      → filter_by p (sort xs) ≡ filter_by p xs
  sort-filter_by p [] same = refl
  sort-filter_by p (x ∷ xs) same =
      insert_sorted-filter_by p x (sort xs) same ∙ ground (arith, sort-filter_by p xs same)

  module _ (total : (a b : A) → le a b ≡ false → le b a ≡ true)
      (trans : (a b c : A) → le a b ≡ true → le b c ≡ true → le a c ≡ true) where
    All-trans :
        (x y : A) (ys : List A)
        → le x y ≡ true
        → All (λ z. le y z ≡ true) ys
        → All (λ z. le x z ≡ true) ys
    All-trans x y [] h a = tt
    All-trans x y (z ∷ zs) h a = (trans x y z h a.0, All-trans x y zs h a.1)

    All-insert :
        (x y : A) (ys : List A)
        → le y x ≡ true
        → All (λ z. le y z ≡ true) ys
        → All (λ z. le y z ≡ true) (insert_sorted x ys)
    All-insert x y [] h a = (h, tt)
    All-insert x y (z ∷ zs) h a = elim (Bool-cases (le x z)) [
      | inl e ↦ rw e (h, a)
      | inr e ↦ rw e (a.0, All-insert x y zs h a.1)
    ]

    insert-IsSorted : (x : A) (ys : List A) → IsSorted ys → IsSorted (insert_sorted x ys)
    insert-IsSorted x [] s = (tt, tt)
    insert-IsSorted x (y ∷ ys) s = elim (Bool-cases (le x y)) [
      | inl e ↦ rw e ((e, All-trans x y ys e s.0), s)
      | inr e ↦ rw e (All-insert x y ys (total x y e) s.0, insert-IsSorted x ys s.1)
    ]

    pub sort-IsSorted : (xs : List A) → IsSorted (sort xs)
    sort-IsSorted [] = tt
    sort-IsSorted (x ∷ xs) = insert-IsSorted x (sort xs) (sort-IsSorted xs)

pub IsSorted-append {ℓ} :
    {A : Type ℓ} (le : A → A → Bool) (xs : List A) (x : A)
    → IsSorted le xs
    → All (λ y. le y x ≡ true) xs
    → IsSorted le (xs ++ x ∷ [])
IsSorted-append le [] x sorted below = (tt, tt)
IsSorted-append le (y ∷ ys) x sorted below = (
  All-append (λ z. le y z ≡ true) ys (x ∷ []) sorted.0 (below.0, tt),
  IsSorted-append le ys x sorted.1 below.1,
)

pub filter_by-IsSorted {ℓ} :
    {A : Type ℓ} (le : A → A → Bool) (p : A → Bool) (xs : List A)
    → IsSorted le xs
    → IsSorted le (filter_by p xs)
filter_by-IsSorted le p [] h = tt
filter_by-IsSorted le p (x ∷ xs) h =
    let rest = filter_by-IsSorted le p xs h.1 in
    elim (Bool-cases (p x)) [
      | inl e ↦ rw e (filter_by-All (λ y. le x y ≡ true) p xs h.0, rest)
      | inr e ↦ rw e rest
    ]

pub IsSorted-mono {ℓ} :
    {A : Type ℓ} (le below : A → A → Bool) (xs : List A)
    → ((a b : A) → le a b ≡ true → below a b ≡ true)
    → IsSorted le xs
    → IsSorted below xs
IsSorted-mono le below [] f h = tt
IsSorted-mono le below (x ∷ xs) f h = (
  All-mono (λ y. le x y ≡ true) (λ y. below x y ≡ true) xs (f x) h.0,
  IsSorted-mono le below xs f h.1,
)
