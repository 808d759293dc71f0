-- ===== src/Tabs/DeviceStatus/Rows.antt =====
-- What the tables of the simulated devices and gateways show.
use chirpstack_simulator.Prelude.{◌≤◌, ◌<◌, filter_by, Text, text_eq, codes}
use chirpstack_simulator.Table.Defs.{refilter}
use chirpstack_simulator.Table.Order.{
  IsOrder, on-IsOrder, if-IsOrder, compare-IsOrder, text_compare-IsOrder,
}
use chirpstack_simulator.Table.Rows.{Shows, OnPage, clamp_page-Shows, clamp_page-OnPage}
use chirpstack_simulator.State.{Engine, State, DeviceStatus, GatewayStatus}
use chirpstack_simulator.Tabs.DeviceStatus.{
  dev_status_compare, dev_status_property, dev_status_passes, dev_status_visible, is_count_key,
  gw_status_compare, gw_status_property, apply_dev_status_filters_and_render,
  apply_gw_status_filters_and_render, gw_status_visible, gw_status_passes,
}

dev_status_compare-IsOrder : (js : Engine) (key : Text) → IsOrder (dev_status_compare js key)
unfolding dev_status_compare
dev_status_compare-IsOrder js key =
    if-IsOrder (is_count_key key)
      (on-IsOrder (λ (d : DeviceStatus). d.uplink_count) compare-IsOrder)
      (on-IsOrder (λ (d : DeviceStatus). js.to_lower (dev_status_property d key))
        text_compare-IsOrder)

gw_status_compare-IsOrder : (js : Engine) (key : Text) → IsOrder (gw_status_compare js key)
unfolding gw_status_compare
gw_status_compare-IsOrder js key =
    if-IsOrder (text_eq key (codes "uplink_count"))
      (on-IsOrder (λ (g : GatewayStatus). g.uplink_count) compare-IsOrder)
      (if-IsOrder (text_eq key (codes "downlink_count"))
        (on-IsOrder (λ (g : GatewayStatus). g.downlink_count) compare-IsOrder)
        (on-IsOrder (λ (g : GatewayStatus). js.to_lower (gw_status_property g key))
          text_compare-IsOrder))

-- From a page number and a page size of at least 1, the table of the simulated devices holds after its
-- filters exactly the devices that the filter keeps, each as often as the server sent it, in the
-- chosen order, and the page number is one of the pages of that list.
pub apply_dev_status_filters_and_render-Shows :
    (js : Engine) (org_filter app_filter : Text) (s : State)
    → 0 < s.dev_status_view.page_size
    → 1 ≤ s.dev_status_view.page
    → Shows
        (dev_status_compare js s.dev_status_view.sort.key)
        (filter_by
          (dev_status_passes js (js.to_lower s.dev_status_view.search_query) org_filter app_filter)
          s.dev_status_list)
        (apply_dev_status_filters_and_render js org_filter app_filter s).0.dev_status_view
      × OnPage (apply_dev_status_filters_and_render js org_filter app_filter s).0.dev_status_view
unfolding apply_dev_status_filters_and_render dev_status_visible
apply_dev_status_filters_and_render-Shows js org_filter app_filter s h k = (
  clamp_page-Shows (dev_status_compare-IsOrder js s.dev_status_view.sort.key)
      (dev_status_visible js org_filter app_filter s) s.dev_status_view,
  clamp_page-OnPage
      (refilter (dev_status_compare js s.dev_status_view.sort.key)
        (dev_status_visible js org_filter app_filter s) s.dev_status_view)
      h k,
)

-- From a page number and a page size of at least 1, the table of the simulated gateways holds after its
-- filters exactly the gateways that the filter keeps (the search text is the one of the devices), each as often as the server sent it, in the
-- chosen order, and the page number is one of the pages of that list.
pub apply_gw_status_filters_and_render-Shows :
    (js : Engine) (org_filter : Text) (s : State)
    → 0 < s.gw_status_view.page_size
    → 1 ≤ s.gw_status_view.page
    → Shows
        (gw_status_compare js s.gw_status_view.sort.key)
        (filter_by
          (gw_status_passes js (js.to_lower s.dev_status_view.search_query) org_filter)
          s.gw_status_list)
        (apply_gw_status_filters_and_render js org_filter s).0.gw_status_view
      × OnPage (apply_gw_status_filters_and_render js org_filter s).0.gw_status_view
unfolding apply_gw_status_filters_and_render gw_status_visible
apply_gw_status_filters_and_render-Shows js org_filter s h k = (
  clamp_page-Shows (gw_status_compare-IsOrder js s.gw_status_view.sort.key)
      (gw_status_visible js org_filter s) s.gw_status_view,
  clamp_page-OnPage
      (refilter (gw_status_compare js s.gw_status_view.sort.key) (gw_status_visible js org_filter s)
        s.gw_status_view)
      h k,
)
