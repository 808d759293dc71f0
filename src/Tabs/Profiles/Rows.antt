-- ===== src/Tabs/Profiles/Rows.antt =====
-- What the table of device profiles shows: which rows, in which order, on which page.
use chirpstack_simulator.Prelude.{
  ◌≤◌, ◌<◌, Bool, not, ◌&&◌, ◌||◌, filter_by, Text, truthy, text_eq, two_filters, ◌≡◌,
}
use chirpstack_simulator.Table.Defs.{refilter}
use chirpstack_simulator.Table.Order.{IsOrder, on-IsOrder, text_compare-IsOrder}
use chirpstack_simulator.Table.Rows.{Shows, OnPage, clamp_page-Shows, clamp_page-OnPage}
use chirpstack_simulator.State.{Engine, State, DeviceProfile}
use chirpstack_simulator.Tabs.Profiles.{
  dp_compare, dp_sort_text, dp_matches, dp_visible, apply_dp_filters_and_render,
}

dp_compare-IsOrder : (js : Engine) (s : State) (key : Text) → IsOrder (dp_compare js s key)
unfolding dp_compare
dp_compare-IsOrder js s key = on-IsOrder (dp_sort_text js s key) text_compare-IsOrder

-- What one profile needs to be listed: the selected tenant, if there is one, and the search text.
pub dp_wanted : Engine → State → DeviceProfile → Bool
dp_wanted js s dp =
    (not (truthy s.dp_view.tenant_filter) || text_eq dp.tenant_id s.dp_view.tenant_filter)
    && (not (truthy (js.to_lower s.dp_view.search_query))
        || dp_matches js (js.to_lower s.dp_view.search_query) dp)

dp_visible-dp_wanted :
    (js : Engine) (s : State) → dp_visible js s ≡ filter_by (dp_wanted js s) s.dp_list
unfolding dp_visible dp_wanted
dp_visible-dp_wanted js s =
    two_filters (truthy s.dp_view.tenant_filter) (truthy (js.to_lower s.dp_view.search_query))
      (λ dp. text_eq dp.tenant_id s.dp_view.tenant_filter)
      (dp_matches js (js.to_lower s.dp_view.search_query)) s.dp_list

-- After the filters of the table of device profiles have been applied, the table holds exactly the
-- profiles of the selected tenant (if one is selected) that match the search (if there is one),
-- each as often as the server sent it, in the chosen order; and from a page number and a page size
-- of at least 1, the page number is one of the pages of that list.
pub apply_dp_filters_and_render-Shows :
    (js : Engine) (s : State)
    → 0 < s.dp_view.page_size
    → 1 ≤ s.dp_view.page
    → Shows
        (dp_compare js s s.dp_view.sort.key)
        (filter_by (dp_wanted js s) s.dp_list)
        (apply_dp_filters_and_render js s).0.dp_view
      × OnPage (apply_dp_filters_and_render js s).0.dp_view
unfolding apply_dp_filters_and_render
apply_dp_filters_and_render-Shows js s h k = (
  rw (← dp_visible-dp_wanted js s)
      (clamp_page-Shows (dp_compare-IsOrder js s s.dp_view.sort.key) (dp_visible js s) s.dp_view),
  clamp_page-OnPage (refilter (dp_compare js s s.dp_view.sort.key) (dp_visible js s) s.dp_view) h k,
)
