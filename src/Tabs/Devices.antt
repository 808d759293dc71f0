-- ===== src/Tabs/Devices.antt =====
-- internal/api/frontend/js/tabs/device-list.js: the table of the devices, which the server filters
-- and cuts into pages, and the table of the send intervals, which the browser pages.
pub mod Rows
pub mod Fetching
pub mod Drawer
pub mod Pages
pub mod Stale
use chirpstack_simulator.Prelude.{
  ℕ, zero, suc, ◌+◌, ◌<◌, Bool, true, false, not, ◌&&◌, ◌||◌, Option, none, some, List, [], ◌∷◌,
  ◌++◌, map, Ordering, compare, length, filter_by, take, ltb, leb, if◌then◌else◌, Text, text_eq,
  truthy, text_or, includes, codes, text_compare, starts_with, drop,
}
use chirpstack_simulator.Table.Defs.{
  View, SortOrder, Screen, total_pages, clamp_page, page_items, pagination_bar, PageButton,
  toggle_sort, set_search, set_page_size, with_page, is_empty, refilter, page_size_of,
}
use chirpstack_simulator.State.{
  Engine, State, Organization, Application, DeviceProfile, Device, Gateway, DeviceStatus,
  GatewayStatus,
}
use chirpstack_simulator.Tabs.Names.{
  get_org_name, get_app_name, get_dp_name, created_time, dash, short_id,
}

-- A row of the table of devices, and of the table of intervals.
pub record DevRow : Type 0 where
  pub id : Text
  pub name : Text
  pub org_name : Text
  pub app_name : Text
  pub dp_name : Text

pub record DevIntRow : Type 0 where
  pub id : Text
  pub name : Text
  pub org_name : Text
  pub tenant : Text

-- `a[sk]`: a property by its name.
unfoldable pub dev_property : Device → Text → Text
dev_property dev key =
    if text_eq key (codes "dev_eui")
    then dev.dev_eui
    else if text_eq key (codes "name")
    then dev.name
    else if text_eq key (codes "tenant_id")
    then dev.tenant_id
    else if text_eq key (codes "application_id")
    then dev.application_id
    else if text_eq key (codes "device_profile_id")
    then dev.device_profile_id
    else []

module _ (js : Engine) where
  unfoldable pub dev_sort_text : State → Text → Device → Text
  dev_sort_text s key dev =
      let value = dev_property dev key in
      js.to_lower (
        if text_eq key (codes "tenant_id")
        then get_org_name s value
        else if text_eq key (codes "application_id")
        then get_app_name s value
        else if text_eq key (codes "device_profile_id")
        then get_dp_name s value
        else value)

  unfoldable pub dev_compare : State → Text → Device → Device → Ordering
  dev_compare s key a b = text_compare (dev_sort_text s key a) (dev_sort_text s key b)

  unfoldable pub dev_int_sort_text : State → Text → Device → Text
  dev_int_sort_text s key dev =
      let value = dev_property dev key in
      js.to_lower (if text_eq key (codes "tenant_id") then get_org_name s value else value)

  unfoldable pub dev_int_compare : State → Text → Device → Device → Ordering
  dev_int_compare s key a b = text_compare (dev_int_sort_text s key a) (dev_int_sort_text s key b)

  unfoldable pub dev_matches : Text → Device → Bool
  dev_matches q dev =
      (truthy dev.name && includes q (js.to_lower dev.name))
      || (truthy dev.dev_eui && includes q (js.to_lower dev.dev_eui))

  unfoldable pub dev_int_visible : State → List Device
  dev_int_visible s =
      let q = js.to_lower s.dev_int_view.search_query in
      if truthy q then filter_by (dev_matches q) s.dev_list else s.dev_list

  unfoldable pub dev_row : State → Device → DevRow
  dev_row s dev = record {
    id = dev.dev_eui;
    name = dev.name;
    org_name = get_org_name s dev.tenant_id;
    app_name = get_app_name s dev.application_id;
    dp_name = get_dp_name s dev.device_profile_id;
  }

  -- The server has cut out the page, so all rows are shown.
  unfoldable pub render_dev_table : State → List DevRow
  render_dev_table s = map (dev_row s) s.dev_view.filtered

  unfoldable pub render_dev_pagination : State → List PageButton
  render_dev_pagination s =
      pagination_bar s.dev_view.page (total_pages s.dev_total_count s.dev_view.page_size)

  unfoldable pub dev_screen : State → Screen DevRow
  dev_screen s = record {
    rows = render_dev_table s;
    empty_state = is_empty s.dev_view.filtered;
    pagination = render_dev_pagination s;
    total_count = s.dev_total_count;
    sort_icon = s.dev_view.sort;
  }

  unfoldable pub dev_int_row : State → Device → DevIntRow
  dev_int_row s dev = record {
    id = dev.dev_eui;
    name = dev.name;
    org_name = get_org_name s dev.tenant_id;
    tenant = text_or dev.tenant_id dash;
  }

  unfoldable pub render_dev_int_table : State → List DevIntRow
  render_dev_int_table s =
      map (dev_int_row s)
        (page_items s.dev_int_view.page s.dev_int_view.page_size s.dev_int_view.filtered)

  unfoldable pub render_dev_int_pagination : State → List PageButton
  render_dev_int_pagination s =
      pagination_bar s.dev_int_view.page
        (total_pages (length s.dev_int_view.filtered) s.dev_int_view.page_size)

  unfoldable pub dev_int_screen : State → Screen DevIntRow
  dev_int_screen s = record {
    rows = render_dev_int_table s;
    empty_state = is_empty s.dev_int_view.filtered;
    pagination = render_dev_int_pagination s;
    total_count = length s.dev_int_view.filtered;
    sort_icon = s.dev_int_view.sort;
  }

  unfoldable pub apply_dev_int_filters_and_render : State → State × Screen DevIntRow
  apply_dev_int_filters_and_render s =
      let v =
        refilter (dev_int_compare s s.dev_int_view.sort.key) (dev_int_visible s) s.dev_int_view in
      let s' = record s { dev_int_view = clamp_page v } in (s', dev_int_screen s')

  -- The devices that the server sent are sorted, and the table of intervals follows.
  unfoldable pub apply_dev_filters_and_render : State → State × Screen DevRow × Screen DevIntRow
  apply_dev_filters_and_render s =
      let v = refilter (dev_compare s s.dev_view.sort.key) s.dev_list s.dev_view in
      let s' = record s { dev_view = v } in
      let (s'', intervals) = apply_dev_int_filters_and_render s' in (s'', dev_screen s', intervals)

  unfoldable pub sort_dev_by : Text → State → State × Screen DevRow × Screen DevIntRow
  sort_dev_by key s =
      apply_dev_filters_and_render (record s { dev_view = toggle_sort key s.dev_view })

  unfoldable pub go_to_dev_int_page : ℕ → State → Option (State × Screen DevIntRow)
  go_to_dev_int_page n s = elim (with_page (length s.dev_int_view.filtered) n s.dev_int_view) [
    | none ↦ none
    | some v ↦ some (apply_dev_int_filters_and_render (record s { dev_int_view = v }))
  ]
