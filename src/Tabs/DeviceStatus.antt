-- ===== src/Tabs/DeviceStatus.antt =====
-- internal/api/frontend/js/tabs/device-status.js: the tables of the simulated devices and gateways.
-- The two selects above them are read from the document, and are arguments here; the search text is
-- one for both tables.
pub mod Rows
use chirpstack_simulator.Prelude.{
  ℕ, zero, suc, ◌+◌, ◌<◌, Bool, true, false, not, ◌&&◌, ◌||◌, Option, none, some, List, [], ◌∷◌,
  ◌++◌, map, Ordering, compare, length, filter_by, take, ltb, leb, if◌then◌else◌, Text, text_eq,
  truthy, text_or, includes, codes, text_compare, starts_with, drop,
}
use chirpstack_simulator.Table.Defs.{
  View, SortOrder, Screen, total_pages, clamp_page, page_items, pagination_bar, PageButton,
  toggle_sort, set_search, set_page_size, with_page, is_empty, refilter, page_size_of,
}
use chirpstack_simulator.State.{
  Engine, State, Organization, Application, DeviceProfile, Device, Gateway, DeviceStatus,
  GatewayStatus,
}
use chirpstack_simulator.Tabs.Names.{
  get_org_name, get_app_name, get_dp_name, created_time, dash, short_id,
}

-- A row of the table of devices; the table of gateways shows the record itself.
pub record DevStatusRow : Type 0 where
  pub device_name : Text
  pub dev_eui : Text
  pub app_name : Text
  pub activated : Bool
  pub uplink_count : ℕ
  pub anomaly : Text

-- A key names a number, or a text with `""` for a missing property.
unfoldable pub is_count_key : Text → Bool
is_count_key key = text_eq key (codes "uplink_count")

unfoldable pub dev_status_property : DeviceStatus → Text → Text
dev_status_property d key =
    if text_eq key (codes "device_name")
    then d.device_name
    else if text_eq key (codes "dev_eui")
    then d.dev_eui
    else if text_eq key (codes "app_name")
    then d.app_name
    else if text_eq key (codes "state")
    then d.activation
    else if text_eq key (codes "active_anomaly")
    then d.active_anomaly
    else if text_eq key (codes "tenant_id")
    then d.tenant_id
    else if text_eq key (codes "application_id")
    then d.application_id
    else []

unfoldable pub gw_status_property : GatewayStatus → Text → Text
gw_status_property g key =
    if text_eq key (codes "gateway_id")
    then g.gateway_id
    else if text_eq key (codes "tenant_id")
    then g.tenant_id
    else []

module _ (js : Engine) where
  unfoldable pub dev_status_matches : Text → DeviceStatus → Bool
  dev_status_matches q d =
      not (truthy q)
      || (truthy d.device_name && includes q (js.to_lower d.device_name))
      || (truthy d.dev_eui && includes q (js.to_lower d.dev_eui))
      || (truthy d.app_name && includes q (js.to_lower d.app_name))

  -- The three early returns of the filter.
  unfoldable pub dev_status_passes : Text → Text → Text → DeviceStatus → Bool
  dev_status_passes q org_filter app_filter d =
      if not (dev_status_matches q d)
      then false
      else if truthy org_filter && not (text_eq d.tenant_id org_filter)
      then false
      else if truthy app_filter && not (text_eq d.application_id app_filter)
      then false
      else true

  unfoldable pub dev_status_compare : Text → DeviceStatus → DeviceStatus → Ordering
  dev_status_compare key a b =
      if is_count_key key
      then compare a.uplink_count b.uplink_count
      else text_compare (js.to_lower (dev_status_property a key))
          (js.to_lower (dev_status_property b key))

  unfoldable pub gw_status_matches : Text → GatewayStatus → Bool
  gw_status_matches q g =
      not (truthy q)
      || (truthy g.gateway_id && includes q (js.to_lower g.gateway_id))
      || (truthy g.tenant_id && includes q (js.to_lower g.tenant_id))

  unfoldable pub gw_status_passes : Text → Text → GatewayStatus → Bool
  gw_status_passes q org_filter g =
      if not (gw_status_matches q g)
      then false
      else if truthy org_filter && not (text_eq g.tenant_id org_filter)
      then false
      else true

  unfoldable pub gw_status_compare : Text → GatewayStatus → GatewayStatus → Ordering
  gw_status_compare key a b =
      if text_eq key (codes "uplink_count")
      then compare a.uplink_count b.uplink_count
      else if text_eq key (codes "downlink_count")
      then compare a.downlink_count b.downlink_count
      else text_compare (js.to_lower (gw_status_property a key))
          (js.to_lower (gw_status_property b key))

  unfoldable pub dev_status_row : DeviceStatus → DevStatusRow
  dev_status_row d = record {
    device_name = d.device_name;
    dev_eui = d.dev_eui;
    app_name = d.app_name;
    activated = text_eq d.activation (codes "Activated");
    uplink_count = d.uplink_count;
    anomaly = if truthy d.active_anomaly then js.to_upper d.active_anomaly else dash;
  }

  unfoldable pub render_dev_status_table : State → List DevStatusRow
  render_dev_status_table s =
      map dev_status_row
        (page_items s.dev_status_view.page s.dev_status_view.page_size s.dev_status_view.filtered)

  unfoldable pub render_gw_status_table : State → List GatewayStatus
  render_gw_status_table s =
      page_items s.gw_status_view.page s.gw_status_view.page_size s.gw_status_view.filtered

  unfoldable pub render_dev_status_pagination : State → List PageButton
  render_dev_status_pagination s =
      pagination_bar s.dev_status_view.page
        (total_pages (length s.dev_status_view.filtered) s.dev_status_view.page_size)

  unfoldable pub render_gw_status_pagination : State → List PageButton
  render_gw_status_pagination s =
      pagination_bar s.gw_status_view.page
        (total_pages (length s.gw_status_view.filtered) s.gw_status_view.page_size)

  unfoldable pub dev_status_screen : State → Screen DevStatusRow
  dev_status_screen s = record {
    rows = render_dev_status_table s;
    empty_state = is_empty s.dev_status_view.filtered;
    pagination = render_dev_status_pagination s;
    total_count = length s.dev_status_view.filtered;
    sort_icon = s.dev_status_view.sort;
  }

  unfoldable pub gw_status_screen : State → Screen GatewayStatus
  gw_status_screen s = record {
    rows = render_gw_status_table s;
    empty_state = is_empty s.gw_status_view.filtered;
    pagination = render_gw_status_pagination s;
    total_count = length s.gw_status_view.filtered;
    sort_icon = s.gw_status_view.sort;
  }

  unfoldable pub dev_status_visible : Text → Text → State → List DeviceStatus
  dev_status_visible org_filter app_filter s =
      filter_by
        (dev_status_passes (js.to_lower s.dev_status_view.search_query) org_filter app_filter)
        s.dev_status_list

  unfoldable pub apply_dev_status_filters_and_render :
      Text → Text → State → State × Screen DevStatusRow
  apply_dev_status_filters_and_render org_filter app_filter s =
      let v =
        refilter (dev_status_compare s.dev_status_view.sort.key)
          (dev_status_visible org_filter app_filter s) s.dev_status_view in
      let s' = record s { dev_status_view = clamp_page v } in (s', dev_status_screen s')

  unfoldable pub gw_status_visible : Text → State → List GatewayStatus
  gw_status_visible org_filter s =
      filter_by (gw_status_passes (js.to_lower s.dev_status_view.search_query) org_filter)
        s.gw_status_list

  unfoldable pub apply_gw_status_filters_and_render : Text → State → State × Screen GatewayStatus
  apply_gw_status_filters_and_render org_filter s =
      let v =
        refilter (gw_status_compare s.gw_status_view.sort.key) (gw_status_visible org_filter s)
          s.gw_status_view in
      let s' = record s { gw_status_view = clamp_page v } in (s', gw_status_screen s')

  unfoldable pub go_to_dev_status_page :
      Text → Text → ℕ → State → Option (State × Screen DevStatusRow)
  go_to_dev_status_page org_filter app_filter n s =
      elim (with_page (length s.dev_status_view.filtered) n s.dev_status_view) [
        | none ↦ none
        | some v ↦ some (
            apply_dev_status_filters_and_render org_filter app_filter
              (record s { dev_status_view = v }))
      ]

  unfoldable pub go_to_gw_status_page : Text → ℕ → State → Option (State × Screen GatewayStatus)
  go_to_gw_status_page org_filter n s =
      elim (with_page (length s.gw_status_view.filtered) n s.gw_status_view) [
        | none ↦ none
        | some v ↦
            some (apply_gw_status_filters_and_render org_filter (record s { gw_status_view = v }))
      ]
