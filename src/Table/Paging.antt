-- ===== src/Table/Paging.antt =====
-- Facts about the pagination bar and the pages of a list.
use chirpstack_simulator.Prelude.{
  ℕ, zero, suc, ◌+◌, ◌-◌, ◌*◌, ◌≤◌, ◌<◌, min, ◌≡◌, arith, List, [], ◌++◌, length, take, drop,
  take-append-drop, drop-drop, drop_of_length-le, length-drop, sym, take-min-length,
  take_of_length-le, ◌∙◌, length-take, ap, ◌/◌, false, ◌∷◌, refl,
}
use chirpstack_simulator.Table.Defs.{is_empty, total_pages, page_items}

pub total_pages-pos : (total page_size : ℕ) → 1 ≤ total_pages total page_size
total_pages-pos total page_size = omega arith

pub le-total_pages-mul :
    (total page_size : ℕ) → 0 < page_size → total ≤ total_pages total page_size * page_size
le-total_pages-mul total page_size h = grind arith

pub page_items-take-drop :
    {A : Type 0} (k size : ℕ) (xs : List A)
    → page_items (suc k) size xs ≡ take size (drop (k * size) xs)
page_items-take-drop k size xs =
    let e : suc k - 1 ≡ k = omega arith in
    rw e (
      take-min-length size (min (k * size + size) (length xs) - k * size) (drop (k * size) xs)
        (omega (arith, length-drop (k * size) xs)))

-- The pages from number `k + 1` on, `count` of them, one behind the other.
pub pages_from : {A : Type 0} → ℕ → ℕ → ℕ → List A → List A
pages_from k zero size xs = []
pages_from k (suc count) size xs = page_items (suc k) size xs ++ pages_from (suc k) count size xs

pages_from-drop :
    {A : Type 0} (k count size : ℕ) (xs : List A)
    → length xs ≤ (k + count) * size
    → pages_from k count size xs ≡ drop (k * size) xs
unfolding pages_from
pages_from-drop k zero size xs h = sym (drop_of_length-le (k * size) xs (omega arith))
pages_from-drop k (suc count) size xs h =
    rw
      (
        page_items-take-drop k size xs,
        pages_from-drop (suc k) count size xs (omega arith),
        ← drop-drop (k * size) size (suc k * size) xs (omega arith),
      )
      (take-append-drop size (drop (k * size) xs))

-- For a page size of at least 1, the pages of a table, one behind the other, are the whole list: each
-- row stands on exactly one page, and in the order of the list.
pub pages_from-all :
    {A : Type 0} (size : ℕ) (xs : List A)
    → 0 < size
    → pages_from 0 (total_pages (length xs) size) size xs ≡ xs
pages_from-all size xs h =
    let e : 0 * size ≡ 0 = omega arith in
    pages_from-drop 0 (total_pages (length xs) size) size xs
      (omega (arith, le-total_pages-mul (length xs) size h))
    ∙ ap (λ (n : ℕ). drop n xs) e

-- A page past the last one is empty.
pub page_items_past :
    {A : Type 0} (page size : ℕ) (xs : List A)
    → 0 < size
    → total_pages (length xs) size < page
    → page_items page size xs ≡ []
page_items_past zero size xs h k = absurd (omega arith)
page_items_past (suc p) size xs h k =
    rw (page_items-take-drop p size xs, drop_of_length-le (p * size) xs (past p size xs h k))
      (take_of_length-le size [] (omega arith))
  where
    past :
        {A : Type 0} (p size : ℕ) (xs : List A)
        → 0 < size
        → total_pages (length xs) size < suc p
        → length xs ≤ p * size
    past p size xs h k =
        let low : total_pages (length xs) size ≤ p = omega arith in
        grind (arith, le-total_pages-mul (length xs) size h)

mul-lt-total :
    (p total size : ℕ) → 0 < size → suc p ≤ total_pages total size → 0 < total → p * size < total
mul-lt-total zero total size h k l = omega arith
mul-lt-total (suc p) total size h k l =
    let low : suc (suc p) ≤ (total + size - 1) / size = omega arith in grind arith

-- A page that the table has is not empty, unless the list is.
pub page_items-nonempty :
    {A : Type 0} (page size : ℕ) (xs : List A)
    → 0 < size
    → 1 ≤ page
    → page ≤ total_pages (length xs) size
    → 0 < length xs
    → 0 < length (page_items page size xs)
page_items-nonempty zero size xs h low high k = absurd (omega arith)
page_items-nonempty (suc p) size xs h low high k =
    rw
      (
        page_items-take-drop p size xs,
        length-take size (drop (p * size) xs),
        length-drop (p * size) xs,
      )
      (omega (arith, mul-lt-total p (length xs) size h high k))

pub is_empty-false : {A : Type 0} (xs : List A) → 0 < length xs → is_empty xs ≡ false
is_empty-false [] h = absurd (omega arith)
is_empty-false (x ∷ xs) h = refl
