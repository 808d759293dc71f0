-- ===== src/Prelude/Filters.antt =====
-- `All` and filters under the operations on lists.
use mathlib.Core.Path.{◌≡◌, refl}
use mathlib.Core.Bool.{Bool, true}
use mathlib.Core.Logic.{inl, inr}
use mathlib.Core.List.{List, [], ◌∷◌, ◌++◌, map, reverse, reverse-cons, append-nil}
use chirpstack_simulator.Prelude.Tests.{Bool-cases}
use chirpstack_simulator.Prelude.Lists.{All, filter_by, filter_by-append}

module _ {ℓ} {A : Type ℓ} where
  pub All-append {κ} : (P : A → Type κ) (xs ys : List A) → All P xs → All P ys → All P (xs ++ ys)
  All-append P [] ys h k = k
  All-append P (x ∷ xs) ys h k = (h.0, All-append P xs ys h.1 k)

  pub All-mono {κ κ'} :
      (P : A → Type κ) (Q : A → Type κ') (xs : List A) → ((x : A) → P x → Q x) → All P xs → All Q xs
  All-mono P Q [] f h = tt
  All-mono P Q (x ∷ xs) f h = (f x h.0, All-mono P Q xs f h.1)

  pub All-reverse {κ} : (P : A → Type κ) (xs : List A) → All P xs → All P (reverse xs)
  All-reverse P [] h = tt
  All-reverse P (x ∷ xs) h =
      rw reverse-cons (All-append P (reverse xs) (x ∷ []) (All-reverse P xs h.1) (h.0, tt))

  pub filter_by-All {κ} :
      (P : A → Type κ) (p : A → Bool) (xs : List A) → All P xs → All P (filter_by p xs)
  filter_by-All P p [] h = tt
  filter_by-All P p (x ∷ xs) h =
      let rest = filter_by-All P p xs h.1 in
      elim (Bool-cases (p x)) [ inl e ↦ rw e (h.0, rest) | inr e ↦ rw e rest ]

  pub filter_by-reverse :
      (p : A → Bool) (xs : List A) → filter_by p (reverse xs) ≡ reverse (filter_by p xs)
  filter_by-reverse p [] = refl
  filter_by-reverse p (x ∷ xs) =
      rw (reverse-cons x xs, filter_by-append p (reverse xs) (x ∷ []), filter_by-reverse p xs)
        (elim (Bool-cases (p x)) [
          | inl e ↦ rw (e, reverse-cons x (filter_by p xs)) refl
          | inr e ↦ rw e (append-nil (reverse (filter_by p xs)))
        ])

  -- What a function gives of each item that the test takes, the test takes of the results.
  pub filter_by-map-All {κ} :
      (P : A → Type κ) (p : A → Bool) (f : A → A) (xs : List A)
      → ((x : A) → p (f x) ≡ true → P (f x))
      → All P (filter_by p (map f xs))
  filter_by-map-All P p f [] h = tt
  filter_by-map-All P p f (x ∷ xs) h =
      let rest = filter_by-map-All P p f xs h in
      elim (Bool-cases (p (f x))) [ inl e ↦ rw e (h x e, rest) | inr e ↦ rw e rest ]

  -- The same where the function keeps what the test takes.
  pub filter_by-map-kept {κ} :
      (P : A → Type κ) (p : A → Bool) (f : A → A) (xs : List A)
      → ((x : A) → p (f x) ≡ p x)
      → ((x : A) → p x ≡ true → P x → P (f x))
      → All P (filter_by p xs)
      → All P (filter_by p (map f xs))
  filter_by-map-kept P p f [] same keeps h = tt
  filter_by-map-kept P p f (x ∷ xs) same keeps h = elim (Bool-cases (p x)) [
    | inl e ↦
        let k : P x × All P (filter_by p xs) = (rw e at h) in
        rw (same x, e) (keeps x e k.0, filter_by-map-kept P p f xs same keeps k.1)
    | inr e ↦
        let k : All P (filter_by p xs) = (rw e at h) in
        rw (same x, e) (filter_by-map-kept P p f xs same keeps k)
  ]

pub map-All : {A B : Type 0} (b : B) (xs : List A) → All (λ (x : B). x ≡ b) (map (λ (a : A). b) xs)
map-All b [] = tt
map-All b (x ∷ xs) = (refl, map-All b xs)
