-- ===== src/Tabs/Devices/Rows.antt =====
-- What the tables of devices and of intervals show.
use chirpstack_simulator.Prelude.{
  ◌≤◌, ◌<◌, Bool, true, false, not, ◌||◌, filter_by, Text, truthy, two_filters, ◌≡◌,
}
use chirpstack_simulator.Table.Defs.{refilter}
use chirpstack_simulator.Table.Order.{IsOrder, on-IsOrder, text_compare-IsOrder}
use chirpstack_simulator.Table.Rows.{
  Shows, OnPage, refilter-Shows, clamp_page-Shows, clamp_page-OnPage,
}
use chirpstack_simulator.State.{Engine, State, Device}
use chirpstack_simulator.Tabs.Devices.{
  dev_compare, dev_sort_text, dev_int_compare, dev_int_sort_text, dev_matches, dev_int_visible,
  apply_dev_filters_and_render, apply_dev_int_filters_and_render,
}
use chirpstack_simulator.Tabs.Names.{get_org_name}

pub dev_compare-IsOrder : (js : Engine) (s : State) (key : Text) → IsOrder (dev_compare js s key)
unfolding dev_compare
dev_compare-IsOrder js s key = on-IsOrder (dev_sort_text js s key) text_compare-IsOrder

dev_int_compare-IsOrder :
    (js : Engine) (s : State) (key : Text) → IsOrder (dev_int_compare js s key)
unfolding dev_int_compare
dev_int_compare-IsOrder js s key = on-IsOrder (dev_int_sort_text js s key) text_compare-IsOrder

-- What one device needs to stand in the table of intervals: the search text.
pub dev_int_wanted : Engine → State → Device → Bool
dev_int_wanted js s dev =
    not (truthy (js.to_lower s.dev_int_view.search_query))
    || dev_matches js (js.to_lower s.dev_int_view.search_query) dev

dev_int_visible-dev_int_wanted :
    (js : Engine) (s : State) → dev_int_visible js s ≡ filter_by (dev_int_wanted js s) s.dev_list
unfolding dev_int_visible dev_int_wanted
dev_int_visible-dev_int_wanted js s =
    two_filters false (truthy (js.to_lower s.dev_int_view.search_query)) (λ dev. true)
      (dev_matches js (js.to_lower s.dev_int_view.search_query)) s.dev_list

-- Rendering the device tab sorts all devices of the server's page by the chosen column, and brings
-- the table of intervals up to date: the devices that match its own search, in its own order, with a
-- page number in range if that number and the page size were at least 1.
pub apply_dev_filters_and_render-Shows :
    (js : Engine) (s : State)
    → 0 < s.dev_int_view.page_size
    → 1 ≤ s.dev_int_view.page
    → Shows
        (dev_compare js s s.dev_view.sort.key)
        s.dev_list
        (apply_dev_filters_and_render js s).0.dev_view
      × Shows
          (dev_int_compare js s s.dev_int_view.sort.key)
          (filter_by (dev_int_wanted js s) s.dev_list)
          (apply_dev_filters_and_render js s).0.dev_int_view
      × OnPage (apply_dev_filters_and_render js s).0.dev_int_view
unfolding apply_dev_filters_and_render apply_dev_int_filters_and_render dev_int_compare
    dev_int_sort_text dev_int_visible get_org_name
apply_dev_filters_and_render-Shows js s h k = (
  refilter-Shows (dev_compare-IsOrder js s s.dev_view.sort.key) s.dev_list s.dev_view,
  rw (← dev_int_visible-dev_int_wanted js s) (
      clamp_page-Shows (dev_int_compare-IsOrder js s s.dev_int_view.sort.key) (dev_int_visible js s)
        s.dev_int_view),
  clamp_page-OnPage
      (refilter (dev_int_compare js s s.dev_int_view.sort.key) (dev_int_visible js s)
        s.dev_int_view)
      h k,
)
