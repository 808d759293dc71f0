-- ===== src/Tabs/Orgs.antt =====
-- internal/api/frontend/js/tabs/orgs.js: the table of the organizations. This tab does not bring the
-- page number back into range when the list has become shorter.
pub mod Rows
use chirpstack_simulator.Prelude.{
  ℕ, zero, suc, ◌+◌, ◌<◌, Bool, true, false, not, ◌&&◌, ◌||◌, Option, none, some, List, [], ◌∷◌,
  ◌++◌, map, Ordering, compare, length, filter_by, take, ltb, leb, if◌then◌else◌, Text, text_eq,
  truthy, text_or, includes, codes, text_compare, starts_with, drop,
}
use chirpstack_simulator.Table.Defs.{
  View, SortOrder, Screen, total_pages, clamp_page, page_items, pagination_bar, PageButton,
  toggle_sort, set_search, set_page_size, with_page, is_empty, refilter, page_size_of,
}
use chirpstack_simulator.State.{
  Engine, State, Organization, Application, DeviceProfile, Device, Gateway, DeviceStatus,
  GatewayStatus,
}
use chirpstack_simulator.Tabs.Names.{
  get_org_name, get_app_name, get_dp_name, created_time, dash, short_id,
}

-- A row of the table: what stands in its cells, whether it is marked, and the id of its buttons. The
-- cell with the creation date, which the browser formats, is left out.
pub record OrgRow : Type 0 where
  pub id : Text
  pub selected : Bool
  pub name : Text
  pub id_short : Text
  pub app_count : ℕ
  pub dp_count : ℕ
  pub dev_count : ℕ

-- `a[key] ? a[key].toString() : ""`
unfoldable pub org_property : Organization → Text → Text
org_property org key =
    if text_eq key (codes "id") then org.id else if text_eq key (codes "name") then org.name else []

unfoldable pub app_count : State → Organization → ℕ
app_count s org = length (filter_by (λ app. text_eq app.tenant_id org.id) s.applications)

unfoldable pub dp_count : State → Organization → ℕ
dp_count s org = length (filter_by (λ dp. text_eq dp.tenant_id org.id) s.dp_list)

unfoldable pub dev_count : State → Organization → ℕ
dev_count s org = length (filter_by (λ dev. text_eq dev.tenant_id org.id) s.all_devices)

module _ (js : Engine) where
  unfoldable pub org_matches : Text → Organization → Bool
  org_matches q org =
      (truthy org.name && includes q (js.to_lower org.name))
      || (truthy org.id && includes q (js.to_lower org.id))

  unfoldable pub org_sort_text : Text → Organization → Text
  org_sort_text key org =
      let value = org_property org key in if truthy value then js.to_lower value else []

  abbrev pub org_time : Organization → ℕ
  org_time org = created_time js org.created_at org.created_at_camel org.created

  unfoldable pub org_compare : State → Text → Organization → Organization → Ordering
  org_compare s key a b =
      if text_eq key (codes "app_count")
      then compare (app_count s a) (app_count s b)
      else if text_eq key (codes "dp_count")
      then compare (dp_count s a) (dp_count s b)
      else if text_eq key (codes "dev_count")
      then compare (dev_count s a) (dev_count s b)
      else if text_eq key (codes "date")
      then compare (org_time a) (org_time b)
      else js.locale_compare (org_sort_text key a) (org_sort_text key b)

  unfoldable pub org_visible : State → List Organization
  org_visible s =
      let q = js.to_lower s.org_view.search_query in
      if truthy q then filter_by (org_matches q) s.organizations else s.organizations

  unfoldable pub org_row : State → Organization → OrgRow
  org_row s org = record {
    id = org.id;
    selected = text_eq org.id s.active_org_id;
    name = org.name;
    id_short = short_id org.id;
    app_count = app_count s org;
    dp_count = dp_count s org;
    dev_count = dev_count s org;
  }

  unfoldable pub render_table : State → List OrgRow
  render_table s =
      map (org_row s) (page_items s.org_view.page s.org_view.page_size s.org_view.filtered)

  unfoldable pub render_pagination : State → List PageButton
  render_pagination s =
      pagination_bar s.org_view.page (total_pages (length s.org_view.filtered) s.org_view.page_size)

  unfoldable pub org_screen : State → Screen OrgRow
  org_screen s = record {
    rows = render_table s;
    empty_state = is_empty s.org_view.filtered;
    pagination = render_pagination s;
    total_count = length s.org_view.filtered;
    sort_icon = s.org_view.sort;
  }

  unfoldable pub apply_filters_and_render : State → State × Screen OrgRow
  apply_filters_and_render s =
      let s' = record s {
        org_view = refilter (org_compare s s.org_view.sort.key) (org_visible s) s.org_view;
      } in
      (s', org_screen s')

  unfoldable pub go_to_page : ℕ → State → Option (State × Screen OrgRow)
  go_to_page n s = elim (with_page (length s.org_view.filtered) n s.org_view) [
    | none ↦ none
    | some v ↦ some (apply_filters_and_render (record s { org_view = v }))
  ]

  unfoldable pub sort_by : Text → State → State × Screen OrgRow
  sort_by key s = apply_filters_and_render (record s { org_view = toggle_sort key s.org_view })

  unfoldable pub search_orgs : Text → State → State × Screen OrgRow
  search_orgs q s = apply_filters_and_render (record s { org_view = set_search q s.org_view })

  unfoldable pub change_page_size : Text → State → State × Screen OrgRow
  change_page_size n s =
      apply_filters_and_render (record s { org_view = set_page_size 5 n s.org_view })
