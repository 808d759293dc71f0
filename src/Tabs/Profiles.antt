-- ===== src/Tabs/Profiles.antt =====
-- internal/api/frontend/js/tabs/devices.js: the table of the device profiles.
pub mod Rows
pub mod Drawer
use chirpstack_simulator.Prelude.{
  ℕ, zero, suc, ◌+◌, ◌<◌, Bool, true, false, not, ◌&&◌, ◌||◌, Option, none, some, List, [], ◌∷◌,
  ◌++◌, map, Ordering, compare, length, filter_by, take, ltb, leb, if◌then◌else◌, Text, text_eq,
  truthy, text_or, includes, codes, text_compare, starts_with, drop,
}
use chirpstack_simulator.Table.Defs.{
  View, SortOrder, Screen, total_pages, clamp_page, page_items, pagination_bar, PageButton,
  toggle_sort, set_search, set_page_size, with_page, is_empty, refilter, page_size_of,
}
use chirpstack_simulator.State.{
  Engine, State, Organization, Application, DeviceProfile, Device, Gateway, DeviceStatus,
  GatewayStatus,
}
use chirpstack_simulator.Tabs.Names.{
  get_org_name, get_app_name, get_dp_name, created_time, dash, short_id,
}

-- A row of the table: what stands in its cells, and the id of its buttons.
pub record DpRow : Type 0 where
  pub id : Text
  pub name : Text
  pub org_name : Text
  pub tenant : Text
  pub region : Text
  pub mac_version : Text
  pub otaa : Text

-- `(a[sk] || "").toString()`, where the profile has the property `sk`.
unfoldable pub dp_property : DeviceProfile → Text → Text
dp_property dp key =
    if text_eq key (codes "id")
    then dp.id
    else if text_eq key (codes "name")
    then dp.name
    else if text_eq key (codes "tenant_id")
    then dp.tenant_id
    else if text_eq key (codes "region")
    then dp.region
    else if text_eq key (codes "mac_version")
    then dp.mac_version
    else if text_eq key (codes "supports_otaa")
    then (if dp.supports_otaa then codes "true" else [])
    else []

-- `text.replace(part, "")`: the first occurrence goes.
unfoldable pub remove_first : Text → Text → Text
remove_first part [] = []
remove_first part (c ∷ r) =
    if starts_with part (c ∷ r) then drop (length part) (c ∷ r) else c ∷ remove_first part r

module _ (js : Engine) where
  unfoldable pub dp_matches : Text → DeviceProfile → Bool
  dp_matches q dp =
      (truthy dp.name && includes q (js.to_lower dp.name))
      || (truthy dp.region && includes q (js.to_lower dp.region))

  unfoldable pub dp_sort_text : State → Text → DeviceProfile → Text
  dp_sort_text s key dp =
      let value = dp_property dp key in
      js.to_lower (if text_eq key (codes "tenant_id") then get_org_name s value else value)

  unfoldable pub dp_compare : State → Text → DeviceProfile → DeviceProfile → Ordering
  dp_compare s key a b = text_compare (dp_sort_text s key a) (dp_sort_text s key b)

  unfoldable pub dp_visible : State → List DeviceProfile
  dp_visible s =
      let q = js.to_lower s.dp_view.search_query in
      let of_tenant =
        if truthy s.dp_view.tenant_filter
        then filter_by (λ dp. text_eq dp.tenant_id s.dp_view.tenant_filter) s.dp_list
        else s.dp_list in
      if truthy q then filter_by (dp_matches q) of_tenant else of_tenant

  unfoldable pub dp_row : State → DeviceProfile → DpRow
  dp_row s dp = record {
    id = dp.id;
    name = dp.name;
    org_name = get_org_name s dp.tenant_id;
    tenant = text_or dp.tenant_id dash;
    region = text_or dp.region dash;
    mac_version = remove_first (codes "LORAWAN_") dp.mac_version;
    otaa = if dp.supports_otaa then codes "✓" else dash;
  }

  unfoldable pub render_dp_table : State → List DpRow
  render_dp_table s =
      map (dp_row s) (page_items s.dp_view.page s.dp_view.page_size s.dp_view.filtered)

  unfoldable pub render_dp_pagination : State → List PageButton
  render_dp_pagination s =
      pagination_bar s.dp_view.page (total_pages (length s.dp_view.filtered) s.dp_view.page_size)

  unfoldable pub dp_screen : State → Screen DpRow
  dp_screen s = record {
    rows = render_dp_table s;
    empty_state = is_empty s.dp_view.filtered;
    pagination = render_dp_pagination s;
    total_count = length s.dp_view.filtered;
    sort_icon = s.dp_view.sort;
  }

  -- Filters, sorts, keeps the page in range, and renders.
  unfoldable pub apply_dp_filters_and_render : State → State × Screen DpRow
  apply_dp_filters_and_render s =
      let v = refilter (dp_compare s s.dp_view.sort.key) (dp_visible s) s.dp_view in
      let s' = record s { dp_view = clamp_page v } in (s', dp_screen s')

  unfoldable pub go_to_dp_page : ℕ → State → Option (State × Screen DpRow)
  go_to_dp_page n s = elim (with_page (length s.dp_view.filtered) n s.dp_view) [
    | none ↦ none
    | some v ↦ some (apply_dp_filters_and_render (record s { dp_view = v }))
  ]

  unfoldable pub sort_dp_by : Text → State → State × Screen DpRow
  sort_dp_by key s = apply_dp_filters_and_render (record s { dp_view = toggle_sort key s.dp_view })

  unfoldable pub search_dp : Text → State → State × Screen DpRow
  search_dp q s = apply_dp_filters_and_render (record s { dp_view = set_search q s.dp_view })

  unfoldable pub change_dp_page_size : Text → State → State × Screen DpRow
  change_dp_page_size n s =
      apply_dp_filters_and_render (record s { dp_view = set_page_size 5 n s.dp_view })
