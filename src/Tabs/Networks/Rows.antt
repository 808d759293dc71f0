-- ===== src/Tabs/Networks/Rows.antt =====
-- What the network table is given to show, in the terms of its own filters, and on which page.
use chirpstack_simulator.Prelude.{
  ◌≤◌, ◌<◌, Bool, not, ◌&&◌, ◌||◌, filter_by, Text, truthy, text_eq, codes, two_filters, ◌≡◌,
  length, false, length-map,
}
use chirpstack_simulator.Table.Defs.{page_items, directed, clamp_page, refilter}
use chirpstack_simulator.Table.Order.{
  IsOrder, on-IsOrder, if-IsOrder, compare-IsOrder, text_compare-IsOrder,
}
use chirpstack_simulator.Prelude.Sorting.{length-sort}
use chirpstack_simulator.Table.Paging.{page_items-nonempty, is_empty-false}
use chirpstack_simulator.Table.Rows.{Shows, OnPage, clamp_page-Shows, clamp_page-OnPage}
use chirpstack_simulator.State.{Engine, State, Application}
use chirpstack_simulator.Tabs.Networks.{
  app_compare, app_sort_text, app_time, app_matches, app_visible, app_screen, app_row,
  render_app_table, apply_app_filters_and_render,
}

pub app_compare-IsOrder : (js : Engine) (s : State) (key : Text) → IsOrder (app_compare js s key)
unfolding app_compare
app_compare-IsOrder js s key =
    if-IsOrder (text_eq key (codes "created_at")) (on-IsOrder (app_time js) compare-IsOrder)
      (on-IsOrder (app_sort_text js s key) text_compare-IsOrder)

-- What one network needs to be listed: the selected tenant, if there is one, and the search text.
unfoldable pub app_wanted : Engine → State → Application → Bool
app_wanted js s app =
    (not (truthy s.net_view.tenant_filter) || text_eq app.tenant_id s.net_view.tenant_filter)
    && (not (truthy (js.to_lower s.net_view.search_query))
        || app_matches js (js.to_lower s.net_view.search_query) app)

app_visible-app_wanted :
    (js : Engine) (s : State) → app_visible js s ≡ filter_by (app_wanted js s) s.applications
unfolding app_visible app_wanted
app_visible-app_wanted js s =
    two_filters (truthy s.net_view.tenant_filter) (truthy (js.to_lower s.net_view.search_query))
      (λ app. text_eq app.tenant_id s.net_view.tenant_filter)
      (app_matches js (js.to_lower s.net_view.search_query)) s.applications

pub apply_app_filters_and_render_view :
    (js : Engine) (s : State)
    → Shows
        (app_compare js s s.net_view.sort.key)
        (filter_by (app_wanted js s) s.applications)
        (apply_app_filters_and_render js s).0.net_view
unfolding apply_app_filters_and_render
apply_app_filters_and_render_view js s =
    rw (← app_visible-app_wanted js s) (
      clamp_page-Shows (app_compare-IsOrder js s s.net_view.sort.key) (app_visible js s) s.net_view)

-- From a page number and a page size of at least 1, the page number is afterwards one of the pages
-- of the list as it is now filtered.
pub apply_app_filters_and_render-OnPage :
    (js : Engine) (s : State)
    → 0 < s.net_view.page_size
    → 1 ≤ s.net_view.page
    → OnPage (apply_app_filters_and_render js s).0.net_view
unfolding apply_app_filters_and_render
apply_app_filters_and_render-OnPage js s h k =
    clamp_page-OnPage
      (refilter (app_compare js s s.net_view.sort.key) (app_visible js s) s.net_view) h k

-- From a page number and a page size of at least 1: if some network is to be listed, then the table
-- shows at least one row and no message for an empty table, also where the page that was shown
-- before no longer exists.
pub apply_app_filters_and_render-nonempty :
    (js : Engine) (s : State)
    → 0 < s.net_view.page_size
    → 1 ≤ s.net_view.page
    → 0 < length (app_visible js s)
    → (0 < length (apply_app_filters_and_render js s).1.rows)
      × ((apply_app_filters_and_render js s).1.empty_state ≡ false)
unfolding apply_app_filters_and_render app_screen render_app_table
apply_app_filters_and_render-nonempty js s size low some_app =
    let v = refilter (app_compare js s s.net_view.sort.key) (app_visible js s) s.net_view in
    let same =
      length-sort (directed v.sort.dir (app_compare js s s.net_view.sort.key)) (app_visible js s) in
    let c = clamp_page v in
    let on = clamp_page-OnPage v size low in
    (
      rw (length-map (page_items c.page c.page_size c.filtered) (app_row js s')) (
          page_items-nonempty c.page c.page_size c.filtered on.sized on.low on.high
            (rw same some_app)),
      is_empty-false v.filtered (rw same some_app),
    )
  where
    s' : State
    s' = (apply_app_filters_and_render js s).0
