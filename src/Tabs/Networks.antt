-- ===== src/Tabs/Networks.antt =====
-- internal/api/frontend/js/tabs/networks.js: the table of the networks (ChirpStack applications).
pub mod Rows
pub mod Listed
pub mod Handlers
use chirpstack_simulator.Prelude.{
  ℕ, Bool, ◌&&◌, ◌||◌, Option, none, some, List, [], map, Ordering, compare, length, filter_by,
  if◌then◌else◌, Text, text_eq, truthy, text_or, includes, codes, text_compare, ◌++◌,
}
use chirpstack_simulator.Prelude.Sorting.{sort}
use chirpstack_simulator.Table.Defs.{
  Screen, total_pages, clamp_page, page_items, pagination_bar, PageButton, toggle_sort, set_search,
  refilter, set_page_size, with_page, is_empty,
}
use chirpstack_simulator.State.{Engine, State, Application}
use chirpstack_simulator.Tabs.Names.{get_org_name, created_time, dash}

-- A row of the table: what stands in its cells, and the id of its buttons. The cell with the
-- creation date, which the browser formats, is left out.
pub record AppRow : Type 0 where
  pub id : Text
  pub name : Text
  pub org_name : Text
  pub tenant : Text

-- `a[sk]`: a property by its name.
unfoldable pub app_property : Application → Text → Text
app_property app key =
    if text_eq key (codes "id")
    then app.id
    else if text_eq key (codes "name")
    then app.name
    else if text_eq key (codes "tenant_id")
    then app.tenant_id
    else []

module _ (js : Engine) where
  unfoldable pub app_matches : Text → Application → Bool
  app_matches q app =
      (truthy app.name && includes q (js.to_lower app.name))
      || (truthy app.tenant_id && includes q (js.to_lower app.tenant_id))

  -- The text that a row is sorted by.
  unfoldable pub app_sort_text : State → Text → Application → Text
  app_sort_text s key app =
      let value = app_property app key in
      js.to_lower (if text_eq key (codes "tenant_id") then get_org_name s value else value)

  abbrev app_time : Application → ℕ
  app_time app = created_time js app.created_at app.created_at_camel app.created

  unfoldable pub app_compare : State → Text → Application → Application → Ordering
  app_compare s key a b =
      if text_eq key (codes "created_at")
      then compare (app_time a) (app_time b)
      else text_compare (app_sort_text s key a) (app_sort_text s key b)

  unfoldable pub app_visible : State → List Application
  app_visible s =
      let q = js.to_lower s.net_view.search_query in
      let of_tenant =
        if truthy s.net_view.tenant_filter
        then filter_by (λ app. text_eq app.tenant_id s.net_view.tenant_filter) s.applications
        else s.applications in
      if truthy q then filter_by (app_matches q) of_tenant else of_tenant

  unfoldable pub app_row : State → Application → AppRow
  app_row s app = record {
    id = app.id;
    name = app.name;
    org_name = get_org_name s app.tenant_id;
    tenant = text_or app.tenant_id dash;
  }

  unfoldable pub render_app_table : State → List AppRow
  render_app_table s =
      map (app_row s) (page_items s.net_view.page s.net_view.page_size s.net_view.filtered)

  unfoldable pub render_app_pagination : State → List PageButton
  render_app_pagination s =
      pagination_bar s.net_view.page (total_pages (length s.net_view.filtered) s.net_view.page_size)

  unfoldable pub app_screen : State → Screen AppRow
  app_screen s = record {
    rows = render_app_table s;
    empty_state = is_empty s.net_view.filtered;
    pagination = render_app_pagination s;
    total_count = length s.net_view.filtered;
    sort_icon = s.net_view.sort;
  }

  -- Filters, sorts, keeps the page in range, and renders.
  unfoldable pub apply_app_filters_and_render : State → State × Screen AppRow
  apply_app_filters_and_render s =
      let v = refilter (app_compare s s.net_view.sort.key) (app_visible s) s.net_view in
      let s' = record s { net_view = clamp_page v } in (s', app_screen s')

  unfoldable pub go_to_app_page : ℕ → State → Option (State × Screen AppRow)
  go_to_app_page n s = elim (with_page (length s.net_view.filtered) n s.net_view) [
    | none ↦ none
    | some v ↦ some (apply_app_filters_and_render (record s { net_view = v }))
  ]

  unfoldable pub sort_net_by : Text → State → State × Screen AppRow
  sort_net_by key s =
      apply_app_filters_and_render (record s { net_view = toggle_sort key s.net_view })

  unfoldable pub search_net : Text → State → State × Screen AppRow
  search_net q s = apply_app_filters_and_render (record s { net_view = set_search q s.net_view })

  unfoldable pub change_net_page_size : Text → State → State × Screen AppRow
  change_net_page_size n s =
      apply_app_filters_and_render (record s { net_view = set_page_size 5 n s.net_view })
