-- ===== src/Tabs/Orgs/Rows.antt =====
-- What the table of organizations shows: which rows and in which order.
use chirpstack_simulator.Prelude.{
  Bool, true, false, not, ◌||◌, filter_by, Text, truthy, text_eq, codes, two_filters, ◌≡◌, ◌<◌,
  length, [], refl,
}
use chirpstack_simulator.Table.Defs.{total_pages, directed}
use chirpstack_simulator.Table.Order.{IsOrder, on-IsOrder, if-IsOrder, compare-IsOrder}
use chirpstack_simulator.Prelude.Sorting.{sort, length-sort}
use chirpstack_simulator.Table.Paging.{page_items_past, is_empty-false}
use chirpstack_simulator.Table.Rows.{Shows, refilter-Shows}
use chirpstack_simulator.State.{Engine, State, Organization}
use chirpstack_simulator.Tabs.Orgs.{
  org_compare, org_sort_text, org_time, org_matches, org_visible, org_screen, render_table,
  app_count, dp_count, dev_count, apply_filters_and_render,
}

org_compare-IsOrder :
    (js : Engine) (s : State) (key : Text)
    → IsOrder js.locale_compare
    → IsOrder (org_compare js s key)
unfolding org_compare
org_compare-IsOrder js s key locale =
    if-IsOrder (text_eq key (codes "app_count")) (on-IsOrder (app_count s) compare-IsOrder) (
      if-IsOrder (text_eq key (codes "dp_count")) (on-IsOrder (dp_count s) compare-IsOrder) (
        if-IsOrder (text_eq key (codes "dev_count")) (on-IsOrder (dev_count s) compare-IsOrder) (
          if-IsOrder (text_eq key (codes "date")) (on-IsOrder (org_time js) compare-IsOrder)
            (on-IsOrder (org_sort_text js key) locale))))

-- What one organization needs to be listed: the search text.
pub org_wanted : Engine → State → Organization → Bool
org_wanted js s org =
    not (truthy (js.to_lower s.org_view.search_query))
    || org_matches js (js.to_lower s.org_view.search_query) org

org_visible-org_wanted :
    (js : Engine) (s : State) → org_visible js s ≡ filter_by (org_wanted js s) s.organizations
unfolding org_visible org_wanted
org_visible-org_wanted js s =
    two_filters false (truthy (js.to_lower s.org_view.search_query)) (λ org. true)
      (org_matches js (js.to_lower s.org_view.search_query)) s.organizations

-- Where the engine's `localeCompare` is an order, the table of organizations holds after its filter
-- exactly the organizations that match the search (if there is one), each as often as the server
-- sent it, ordered by the chosen column: its counts of networks, profiles and devices, the creation
-- time, or a text.
pub apply_filters_and_render-Shows :
    (js : Engine) (s : State)
    → IsOrder js.locale_compare
    → Shows
        (org_compare js s s.org_view.sort.key)
        (filter_by (org_wanted js s) s.organizations)
        (apply_filters_and_render js s).0.org_view
unfolding apply_filters_and_render
apply_filters_and_render-Shows js s locale = rw (← org_visible-org_wanted js s) (
    refilter-Shows (org_compare-IsOrder js s s.org_view.sort.key locale) (org_visible js s)
      s.org_view)

-- The table of organizations with a page number past its last page (the list became shorter) and at
-- least one organization to show: no row is shown, and the message for an empty table is not shown
-- either.
pub apply_filters_and_render_stale :
    (js : Engine) (s : State)
    → 0 < s.org_view.page_size
    → 0 < length (org_visible js s)
    → total_pages (length (org_visible js s)) s.org_view.page_size < s.org_view.page
    → ((apply_filters_and_render js s).1.rows ≡ [])
      × ((apply_filters_and_render js s).1.empty_state ≡ false)
unfolding apply_filters_and_render org_screen render_table
apply_filters_and_render_stale js s size some_org past =
    let order = directed s.org_view.sort.dir (org_compare js s s.org_view.sort.key) in
    let rows = sort order (org_visible js s) in
    let same : length rows ≡ length (org_visible js s) = length-sort order (org_visible js s) in
    (
      rw (page_items_past s.org_view.page s.org_view.page_size rows size (rw same past)) refl,
      is_empty-false rows (rw same some_org),
    )
