-- ===== src/Table/Defs.antt =====
-- The parts that all list tabs of internal/api/frontend/js/tabs share: the view of a table (sort
-- order, page, page size, search text, tenant filter), the pagination bar, and the handlers that
-- change a view. Every tab of the source repeats this code over its own fields of `state`.
use chirpstack_simulator.Prelude.Sorting.{sort}
use chirpstack_simulator.Prelude.{
  Ordering, ℕ, zero, suc, ◌+◌, ◌-◌, ◌*◌, ◌/◌, min, max, Bool, true, false, ◌||◌, Option, none, some,
  List, [], ◌∷◌, ◌++◌, length, take, drop, ltb, leb, ◌==◌, if◌then◌else◌, Text, text_eq, parse_int,
}

pub data Dir : Type 0 where
  asc desc : Dir

abbrev pub flip_dir : Dir → Dir
flip_dir asc = desc
flip_dir desc = asc

-- The comparator's result times `1` for ascending and `-1` for descending order is not positive.
abbrev pub opposite : Ordering → Ordering
opposite Ordering.lt = Ordering.gt
opposite Ordering.eq = Ordering.eq
opposite Ordering.gt = Ordering.lt

abbrev pub not_after : Ordering → Bool
not_after Ordering.gt = false
not_after Ordering.eq = true
not_after Ordering.lt = true

abbrev pub directed {ℓ} : {A : Type ℓ} → Dir → (A → A → Ordering) → A → A → Bool
directed asc cmp a b = not_after (cmp a b)
directed desc cmp a b = not_after (opposite (cmp a b))

pub record SortOrder : Type 0 where
  pub key : Text
  pub dir : Dir

-- The fields of `state` that belong to one table.
pub record View (A : Type 0) : Type 0 where
  pub filtered : List A
  pub sort : SortOrder
  pub page : ℕ
  pub page_size : ℕ
  pub search_query : Text
  pub tenant_filter : Text

-- `Math.max(1, Math.ceil(total / pageSize))`
abbrev pub total_pages : ℕ → ℕ → ℕ
total_pages total page_size = max 1 ((total + page_size - 1) / page_size)

-- A button of the pagination bar, with the page that a click on it asks for.
pub data Label : Type 0 where
  prev next : Label
  number : ℕ → Label

pub record PageButton : Type 0 where
  pub label : Label
  pub disabled : Bool
  pub active : Bool
  pub target : ℕ

-- `for (let p = first; …)`, for `count` rounds.
unfoldable pub number_buttons : ℕ → ℕ → ℕ → List PageButton
number_buttons current first zero = []
number_buttons current first (suc count) =
    record { label = number first; disabled = false; active = first == current; target = first }
    ∷ number_buttons current (first + 1) count

-- The first and the last page of the bar: five pages round the current one. `-` stops at 0, where
-- `Math.max(1, …)` gives the value that it gives for a negative difference.
abbrev pub start_page : ℕ → ℕ → ℕ
start_page current pages =
    let first = max 1 (current - 2) in
    let last = min pages (first + 4) in if ltb (last - first) 4 then max 1 (last - 4) else first

abbrev pub end_page : ℕ → ℕ → ℕ
end_page current pages = min pages (max 1 (current - 2) + 4)

unfoldable pub pagination_bar : ℕ → ℕ → List PageButton
pagination_bar current pages =
    let first = start_page current pages in
    record { label = prev; disabled = leb current 1; active = false; target = current - 1 }
    ∷ (number_buttons current first (end_page current pages + 1 - first)
        ++ record {
          label = next;
          disabled = leb pages current;
          active = false;
          target = current + 1;
        }
          ∷ [])

-- `slice(start, end)` for the rows of a page.
abbrev pub slice {ℓ} : {A : Type ℓ} → ℕ → ℕ → List A → List A
slice first last xs = take (last - first) (drop first xs)

abbrev pub page_items {ℓ} : {A : Type ℓ} → ℕ → ℕ → List A → List A
page_items page page_size xs =
    let first = (page - 1) * page_size in slice first (min (first + page_size) (length xs)) xs

-- `parseInt(n, 10) || fallback`, of the value of an <option>.
abbrev pub page_size_of : ℕ → Text → ℕ
page_size_of fallback n = elim (parse_int n) [
  | none ↦ fallback
  | some zero ↦ fallback
  | some (suc k) ↦ suc k
]

module _ {A : Type 0} where
  -- The rows that passed the filters, in the order of the view.
  abbrev pub refilter : (A → A → Ordering) → List A → View A → View A
  refilter cmp rows v = record v { filtered = sort (directed v.sort.dir cmp) rows }

  -- `if (page > totalPages) page = totalPages`
  abbrev pub clamp_page : View A → View A
  clamp_page v =
      let pages = total_pages (length v.filtered) v.page_size in
      record v { page = if ltb pages v.page then pages else v.page }

  -- The handlers change the view and have it filtered and rendered again.
  abbrev pub toggle_sort : Text → View A → View A
  toggle_sort key v =
      if text_eq v.sort.key key
      then record v { sort = record { key = v.sort.key; dir = flip_dir v.sort.dir }; page = 1 }
      else record v { sort = record { key = key; dir = asc }; page = 1 }

  abbrev pub set_search : Text → View A → View A
  set_search q v = record v { search_query = q; page = 1 }

  abbrev pub set_page_size : ℕ → Text → View A → View A
  set_page_size fallback n v = record v { page_size = page_size_of fallback n; page = 1 }

  -- `none` is the early return.
  abbrev pub with_page : ℕ → ℕ → View A → Option (View A)
  with_page total n v =
      if ltb n 1 || ltb (total_pages total v.page_size) n
      then none
      else some (record v { page = n })

-- What the renderers of a tab put into the document.
pub record Screen (Row : Type 0) : Type 0 where
  pub rows : List Row
  pub empty_state : Bool
  pub pagination : List PageButton
  pub total_count : ℕ
  pub sort_icon : SortOrder

abbrev pub is_empty {ℓ} : {A : Type ℓ} → List A → Bool
is_empty [] = true
is_empty (x ∷ xs) = false
