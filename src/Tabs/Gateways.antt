-- ===== src/Tabs/Gateways.antt =====
-- internal/api/frontend/js/tabs/gateways.js: the table of the gateways. This tab does not bring the
-- page number back into range when the list has become shorter.
pub mod Rows
use chirpstack_simulator.Prelude.{
  ℕ, zero, suc, ◌+◌, ◌<◌, Bool, true, false, not, ◌&&◌, ◌||◌, Option, none, some, List, [], ◌∷◌,
  ◌++◌, map, Ordering, compare, length, filter_by, take, ltb, leb, if◌then◌else◌, Text, text_eq,
  truthy, text_or, includes, codes, text_compare, starts_with, drop,
}
use chirpstack_simulator.Table.Defs.{
  View, SortOrder, Screen, total_pages, clamp_page, page_items, pagination_bar, PageButton,
  toggle_sort, set_search, set_page_size, with_page, is_empty, refilter, page_size_of,
}
use chirpstack_simulator.State.{
  Engine, State, Organization, Application, DeviceProfile, Device, Gateway, DeviceStatus,
  GatewayStatus,
}
use chirpstack_simulator.Tabs.Names.{
  get_org_name, get_app_name, get_dp_name, created_time, dash, short_id,
}

-- A row of the table: what stands in its cells, and the id of its buttons.
pub record GwRow : Type 0 where
  pub id : Text
  pub name : Text
  pub description : Text
  pub id_short : Text
  pub org_name : Text
  pub tenant : Text
  pub created : Text

-- `a[key] ? a[key].toString() : ""`
unfoldable pub gw_property : Gateway → Text → Text
gw_property gw key =
    if text_eq key (codes "id")
    then gw.id
    else if text_eq key (codes "name")
    then gw.name
    else if text_eq key (codes "tenant_id")
    then gw.tenant_id
    else if text_eq key (codes "description")
    then gw.description
    else if text_eq key (codes "created_at")
    then gw.created_at
    else []

module _ (js : Engine) where
  unfoldable pub gw_matches : Text → Gateway → Bool
  gw_matches q gw =
      (truthy gw.name && includes q (js.to_lower gw.name))
      || (truthy gw.id && includes q (js.to_lower gw.id))
      || (truthy gw.description && includes q (js.to_lower gw.description))

  unfoldable pub gw_sort_text : Text → Gateway → Text
  gw_sort_text key gw =
      let value = gw_property gw key in if truthy value then js.to_lower value else []

  unfoldable pub gw_compare : Text → Gateway → Gateway → Ordering
  gw_compare key a b = js.locale_compare (gw_sort_text key a) (gw_sort_text key b)

  unfoldable pub gw_visible : State → List Gateway
  gw_visible s =
      let q = js.to_lower s.gw_view.search_query in
      let of_tenant =
        if truthy s.gw_view.tenant_filter
        then filter_by (λ gw. text_eq gw.tenant_id s.gw_view.tenant_filter) s.gateways
        else s.gateways in
      if truthy q then filter_by (gw_matches q) of_tenant else of_tenant

  unfoldable pub gw_row : State → Gateway → GwRow
  gw_row s gw = record {
    id = gw.id;
    name = gw.name;
    description = gw.description;
    id_short = short_id gw.id;
    org_name = get_org_name s gw.tenant_id;
    tenant = gw.tenant_id;
    created = text_or gw.created_at dash;
  }

  unfoldable pub render_gw_table : State → List GwRow
  render_gw_table s =
      map (gw_row s) (page_items s.gw_view.page s.gw_view.page_size s.gw_view.filtered)

  unfoldable pub render_gw_pagination : State → List PageButton
  render_gw_pagination s =
      pagination_bar s.gw_view.page (total_pages (length s.gw_view.filtered) s.gw_view.page_size)

  unfoldable pub gw_screen : State → Screen GwRow
  gw_screen s = record {
    rows = render_gw_table s;
    empty_state = is_empty s.gw_view.filtered;
    pagination = render_gw_pagination s;
    total_count = length s.gw_view.filtered;
    sort_icon = s.gw_view.sort;
  }

  unfoldable pub apply_gw_filters_and_render : State → State × Screen GwRow
  apply_gw_filters_and_render s =
      let s' = record s {
        gw_view = refilter (gw_compare s.gw_view.sort.key) (gw_visible s) s.gw_view;
      } in
      (s', gw_screen s')

  unfoldable pub go_to_gw_page : ℕ → State → Option (State × Screen GwRow)
  go_to_gw_page n s = elim (with_page (length s.gw_view.filtered) n s.gw_view) [
    | none ↦ none
    | some v ↦ some (apply_gw_filters_and_render (record s { gw_view = v }))
  ]

  unfoldable pub sort_by : Text → State → State × Screen GwRow
  sort_by key s = apply_gw_filters_and_render (record s { gw_view = toggle_sort key s.gw_view })

  unfoldable pub search_gws : Text → State → State × Screen GwRow
  search_gws q s = apply_gw_filters_and_render (record s { gw_view = set_search q s.gw_view })

  unfoldable pub change_gw_page_size : Text → State → State × Screen GwRow
  change_gw_page_size n s =
      apply_gw_filters_and_render (record s { gw_view = set_page_size 5 n s.gw_view })
