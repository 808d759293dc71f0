-- ===== src/Table/Bar.antt =====
-- Facts about the pagination bar: its pages, and where its buttons lead.
use chirpstack_simulator.Prelude.{
  leb, length-append, ℕ, zero, suc, ◌+◌, ◌-◌, ◌≤◌, ◌<◌, min, ◌≡◌, ◌≢◌, refl, arith, [], ◌∷◌, length,
  All, false, none, All-append,
}
use chirpstack_simulator.Table.Defs.{
  View, total_pages, start_page, end_page, number_buttons, pagination_bar, PageButton, with_page,
  next,
}

number_buttons-All :
    (P : PageButton → Type 0) (current first count : ℕ)
    → ((b : PageButton) → first ≤ b.target → b.target < first + count → P b)
    → All P (number_buttons current first count)
unfolding number_buttons
number_buttons-All P current first zero h = tt
number_buttons-All P current first (suc count) h = (
  h _ (omega arith) (omega arith),
  number_buttons-All P current (first + 1) count (λ b k l. h b (omega arith) (omega arith)),
)

length-number_buttons :
    (current first count : ℕ) → length (number_buttons current first count) ≡ count
unfolding number_buttons
length-number_buttons current first zero = refl
length-number_buttons current first (suc count) =
    omega (arith, length-number_buttons current (first + 1) count)

start_page_bounds :
    (current pages : ℕ)
    → 1 ≤ current
    → current ≤ pages
    → (1 ≤ start_page current pages)
      × (start_page current pages ≤ current)
      × (current ≤ end_page current pages)
      × (end_page current pages ≤ pages)
      × (end_page current pages + 1 - start_page current pages ≡ min 5 pages)
start_page_bounds current pages h k =
    (ground arith, ground arith, omega arith, omega arith, ground arith)

-- On a page of the table, the bar has a button for each of five pages in a row, or for all pages if
-- there are fewer, besides the two at its ends; the current page is one of them, and none lies
-- outside the table.
pub pagination_bar_window :
    (current pages : ℕ)
    → 1 ≤ current
    → current ≤ pages
    → (length (pagination_bar current pages) ≡ min 5 pages + 2)
      × (1 ≤ start_page current pages)
      × (start_page current pages ≤ current)
      × (current < start_page current pages + min 5 pages)
      × (start_page current pages + min 5 pages ≤ pages + 1)
unfolding pagination_bar
pagination_bar_window current pages h k =
    let bounds = start_page_bounds current pages h k in
    (
      omega (
        arith,
        length-append
            (number_buttons current (start_page current pages)
              (end_page current pages + 1 - start_page current pages))
            (record {
              label = next;
              disabled = leb pages current;
              active = false;
              target = current + 1;
            }
              ∷ []),
        length-number_buttons current (start_page current pages)
            (end_page current pages + 1 - start_page current pages),
        bounds,
      ),
      omega arith,
      omega arith,
      omega arith,
      omega arith,
    )

with_page-ne-none :
    {A : Type 0} (total n : ℕ) (v : View A)
    → 1 ≤ n
    → n ≤ total_pages total v.page_size
    → with_page total n v ≢ none
with_page-ne-none total n v h k = ground arith

-- On a page of the table, no click on a button that is not disabled runs into the early return of
-- the handler: each leads to a page of the table.
pub pagination_bar-with_page :
    {A : Type 0} (total : ℕ) (v : View A)
    → 1 ≤ v.page
    → v.page ≤ total_pages total v.page_size
    → All
        (λ b. b.disabled ≡ false → with_page total b.target v ≢ none)
        (pagination_bar v.page (total_pages total v.page_size))
unfolding pagination_bar
pagination_bar-with_page total v h k =
    let pages = total_pages total v.page_size in
    let bounds = start_page_bounds v.page pages h k in
    (
      λ e. with_page-ne-none total (v.page - 1) v (ground arith) (omega arith),
      All-append _ (number_buttons _ _ _) _
          (number_buttons-All _ _ _ _
            (λ b low high e. with_page-ne-none total b.target v (omega arith) (omega arith)))
          ((λ e. with_page-ne-none total (v.page + 1) v (omega arith) (ground arith)), tt),
    )
