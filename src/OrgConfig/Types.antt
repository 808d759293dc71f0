-- ===== src/OrgConfig/Types.antt =====
-- The text of the chosen anomaly types, put into the check boxes and read from them.
use chirpstack_simulator.Prelude.{
  Text, Bool, true, false, List, [], ◌∷◌, ◌++◌, ◌==◌, ◌&&◌, text_eq, text_eq_iff, text_eq_refl,
  truthy, map, filter_by, All, ◌≡◌, refl, ap, sym, ◌∙◌, Bool-cases, inl, inr,
}
use chirpstack_simulator.OrgConfig.Boxes.{
  Box, join, split, contains, chosen_types, check_boxes, set_checked,
}

-- A text without a comma.
abbrev pub NoComma : Text → Type 0
NoComma s = All (λ c. (c == b',') ≡ false) s

split_plain : (s : Text) → NoComma s → split s ≡ s ∷ []
unfolding split
split_plain [] a = refl
split_plain (c ∷ s) a = simp (a.0, split_plain s a.1) refl

split_comma : (s rest : Text) → NoComma s → split (s ++ (b',' ∷ rest)) ≡ s ∷ split rest
unfolding split
split_comma [] rest a = refl
split_comma (c ∷ s) rest a = simp (a.0, split_comma s rest a.1) refl

split-join : (x : Text) (xs : List Text) → All NoComma (x ∷ xs) → split (join (x ∷ xs)) ≡ x ∷ xs
unfolding join
split-join x [] a = split_plain x a.0
split-join x (y ∷ xs) a = split_comma x (join (y ∷ xs)) a.0 ∙ ap (x ∷◌) (split-join y xs a.1)

contains-split-join :
    (v : Text) (xs : List Text)
    → truthy v ≡ true
    → All NoComma xs
    → contains v (split (join xs)) ≡ contains v xs
unfolding split join
contains-split-join [] [] t a = absurd cc
contains-split-join (c ∷ v) [] t a = refl
contains-split-join v (x ∷ xs) t a = ap (contains v) (split-join x xs a)

contains-filter_by :
    (keep : Text → Bool) (v : Text) (xs : List Text)
    → contains v (filter_by keep xs) ≡ (keep v && contains v xs)
contains-filter_by keep v [] = elim (Bool-cases (keep v)) [ inl e ↦ rw e refl | inr e ↦ rw e refl ]
contains-filter_by keep v (x ∷ xs) =
    let ih = contains-filter_by keep v xs in
    elim (Bool-cases (text_eq x v)) [
      | inl t ↦
          let same : keep x ≡ keep v = ap keep ((text_eq_iff x v).0 t) in
          elim (Bool-cases (keep x)) [
            | inl k ↦ simp (k, t, sym same ∙ k) refl
            | inr k ↦ simp (k, ih, sym same ∙ k) refl
          ]
      | inr t ↦ elim (Bool-cases (keep x)) [ inl k ↦ simp (k, t) ih | inr k ↦ simp (k, t) ih ]
    ]

contains_weaken :
    (x : Text) (xs ys : List Text)
    → All (λ v. contains v xs ≡ true) ys
    → All (λ v. contains v (x ∷ xs) ≡ true) ys
contains_weaken x xs [] a = tt
contains_weaken x xs (y ∷ ys) a =
    let later : contains y (x ∷ xs) ≡ true = elim (Bool-cases (text_eq x y)) [
      | inl t ↦ simp t refl
      | inr t ↦ simp t (a.0)
    ] in
    (later, contains_weaken x xs ys a.1)

contains_all : (xs : List Text) → All (λ v. contains v xs ≡ true) xs
contains_all [] = tt
contains_all (x ∷ xs) = (simp (text_eq_refl x) refl, contains_weaken x xs xs (contains_all xs))

filter_by_cong :
    (p q : Text → Bool) (xs : List Text) → All (λ v. p v ≡ q v) xs → filter_by p xs ≡ filter_by q xs
filter_by_cong p q [] a = refl
filter_by_cong p q (x ∷ xs) a = elim (Bool-cases (q x)) [
  | inl e ↦ simp (a.0, e) (ap (x ∷◌) (filter_by_cong p q xs a.1))
  | inr e ↦ simp (a.0, e) (filter_by_cong p q xs a.1)
]

filter_by-NoComma :
    (keep : Text → Bool) (xs : List Text) → All NoComma xs → All NoComma (filter_by keep xs)
filter_by-NoComma keep [] a = tt
filter_by-NoComma keep (x ∷ xs) a = elim (Bool-cases (keep x)) [
  | inl e ↦ simp e (a.0, filter_by-NoComma keep xs a.1)
  | inr e ↦ simp e (filter_by-NoComma keep xs a.1)
]

abbrev pub values : List Box → List Text
values boxes = map (λ (b : Box). b.value) boxes

checked_values :
    (p : Text → Bool) (boxes : List Box)
    → map
        (λ (b : Box). b.value)
        (filter_by (λ (b : Box). b.checked) (map (λ (b : Box). set_checked (p b.value) b) boxes))
      ≡ filter_by p (values boxes)
checked_values p [] = refl
checked_values p (b ∷ boxes) = elim (Bool-cases (p b.value)) [
  | inl e ↦ simp e (ap (b.value ∷◌) (checked_values p boxes))
  | inr e ↦ simp e (checked_values p boxes)
]

-- What a value of a box may be.
abbrev pub PlainValue : Text → Type 0
PlainValue v = (truthy v ≡ true) × NoComma v

plain_commas : (xs : List Text) → All PlainValue xs → All NoComma xs
plain_commas [] a = tt
plain_commas (x ∷ xs) a = (a.0.1, plain_commas xs a.1)

keep_true : (a b : Bool) → b ≡ true → (a && b) ≡ a
keep_true true b e = rw e refl
keep_true false b e = refl

agrees :
    (keep : Text → Bool) (all xs : List Text)
    → All NoComma all
    → All PlainValue xs
    → All (λ v. contains v all ≡ true) xs
    → All (λ v. contains v (split (join (filter_by keep all))) ≡ keep v) xs
agrees keep all [] n p c = tt
agrees keep all (x ∷ xs) n p c =
    let kept : contains x (split (join (filter_by keep all))) ≡ keep x =
      contains-split-join x (filter_by keep all) p.0.0 (filter_by-NoComma keep all n)
      ∙ contains-filter_by keep x all
      ∙ keep_true (keep x) (contains x all) c.0 in
    (kept, agrees keep all xs n p.1 c.1)

-- The types that are chosen come back when their text is put into the boxes.
pub chosen_types-check_boxes :
    (keep : Text → Bool) (boxes : List Box)
    → All PlainValue (values boxes)
    → chosen_types (check_boxes (join (filter_by keep (values boxes))) boxes)
      ≡ join (filter_by keep (values boxes))
unfolding chosen_types check_boxes
chosen_types-check_boxes keep boxes p =
    let types = join (filter_by keep (values boxes)) in
    ap join (
      checked_values (λ v. contains v (split types)) boxes
      ∙ filter_by_cong (λ v. contains v (split types)) keep (values boxes)
          (agrees keep (values boxes) (values boxes) (plain_commas _ p) p
            (contains_all (values boxes))))

pub values-check_boxes :
    (types : Text) (boxes : List Box) → values (check_boxes types boxes) ≡ values boxes
unfolding check_boxes
values-check_boxes types [] = refl
values-check_boxes types (b ∷ boxes) = ap (b.value ∷◌) (values-check_boxes types boxes)
