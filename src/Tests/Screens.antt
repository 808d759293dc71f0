-- ===== src/Tests/Screens.antt =====
-- What the tables show, handler by handler, at the concrete page.
use chirpstack_simulator.Prelude.{◌≡◌, codes, map, ℕ, ◌∷◌, [], List, none, refl, Text}
use chirpstack_simulator.State.{State}
use chirpstack_simulator.Tests.Data.{js, page}
use chirpstack_simulator.Tabs.Networks.{
  app_property, app_matches, app_sort_text, app_compare, app_visible, app_row, render_app_table,
  render_app_pagination, app_screen, apply_app_filters_and_render, go_to_app_page, sort_net_by,
  search_net, change_net_page_size, AppRow,
}
use chirpstack_simulator.Tabs.Profiles.{
  dp_property, remove_first, dp_matches, dp_sort_text, dp_compare, dp_visible, dp_row,
  render_dp_table, render_dp_pagination, dp_screen, apply_dp_filters_and_render, go_to_dp_page,
  sort_dp_by, search_dp, change_dp_page_size,
}
use chirpstack_simulator.Tabs.Gateways.{
  gw_property, gw_matches, gw_sort_text, gw_compare, gw_visible, gw_row, render_gw_table,
  render_gw_pagination, gw_screen, apply_gw_filters_and_render, go_to_gw_page, search_gws,
  change_gw_page_size,
}
use chirpstack_simulator.Tabs.Orgs.{
  org_property, app_count, dp_count, dev_count, org_matches, org_sort_text, org_compare,
  org_visible, org_row, render_table, render_pagination, org_screen, apply_filters_and_render,
  go_to_page, search_orgs, change_page_size,
}
use chirpstack_simulator.Tabs.Devices.{
  dev_property, dev_sort_text, dev_compare, dev_int_sort_text, dev_int_compare, dev_matches,
  dev_int_visible, dev_row, render_dev_table, render_dev_pagination, dev_screen, dev_int_row,
  render_dev_int_table, render_dev_int_pagination, dev_int_screen, apply_dev_int_filters_and_render,
  apply_dev_filters_and_render, sort_dev_by, go_to_dev_int_page,
}
use chirpstack_simulator.Tabs.DeviceStatus.{
  is_count_key, dev_status_property, gw_status_property, dev_status_matches, dev_status_passes,
  dev_status_compare, gw_status_matches, gw_status_passes, gw_status_compare, dev_status_row,
  render_dev_status_table, render_gw_status_table, render_dev_status_pagination,
  render_gw_status_pagination, dev_status_screen, gw_status_screen, dev_status_visible,
  apply_dev_status_filters_and_render, gw_status_visible, apply_gw_status_filters_and_render,
  go_to_dev_status_page, go_to_gw_status_page,
}
use chirpstack_simulator.Tabs.Gateways
use chirpstack_simulator.Tabs.Orgs
use chirpstack_simulator.Table.Defs.{Screen}

-- The ids of the rows, and the number of the page.
abbrev app_ids : State × Screen AppRow → ℕ × List Text
app_ids (s, screen) = (s.net_view.page, map (λ r. r.id) screen.rows)

networks_shown :
    (app_ids (apply_app_filters_and_render js page)
      ≡ (1, codes "a" ∷ codes "b" ∷ codes "c" ∷ codes "f" ∷ codes "g" ∷ []))
    × (app_ids (sort_net_by js (codes "name") page)
        ≡ (1, codes "g" ∷ codes "f" ∷ codes "c" ∷ codes "b" ∷ codes "a" ∷ []))
    × (app_ids (search_net js (codes "f") page) ≡ (1, codes "f" ∷ []))
    × (app_ids (change_net_page_size js (codes "10") page)
        ≡ (1, codes "a" ∷ codes "b" ∷ codes "c" ∷ codes "f" ∷ codes "g" ∷ []))
    × (go_to_app_page js 9 page ≡ none)
unfolding app_property app_matches app_sort_text app_compare app_visible app_row render_app_table
    render_app_pagination app_screen apply_app_filters_and_render go_to_app_page sort_net_by
    search_net change_net_page_size
networks_shown = (refl, refl, refl, refl, refl)

profiles_shown :
    (map (λ r. r.id) (apply_dp_filters_and_render js page).1.rows ≡ codes "p1" ∷ codes "p2" ∷ [])
    × (map (λ r. r.id) (sort_dp_by js (codes "name") page).1.rows ≡ codes "p2" ∷ codes "p1" ∷ [])
    × (map (λ r. r.id) (search_dp js (codes "p2") page).1.rows ≡ codes "p2" ∷ [])
    × ((change_dp_page_size js (codes "10") page).0.dp_view.page_size ≡ 10)
    × (go_to_dp_page js 9 page ≡ none)
unfolding dp_property remove_first dp_matches dp_sort_text dp_compare dp_visible dp_row
    render_dp_table render_dp_pagination dp_screen apply_dp_filters_and_render go_to_dp_page
    sort_dp_by search_dp change_dp_page_size
profiles_shown = (refl, refl, refl, refl, refl)

gateways_shown :
    (map (λ r. r.id) (apply_gw_filters_and_render js page).1.rows ≡ codes "g1" ∷ codes "g2" ∷ [])
    × (map (λ r. r.id) (Gateways.sort_by js (codes "id") page).1.rows
        ≡ codes "g2" ∷ codes "g1" ∷ [])
    × (map (λ r. r.id) (search_gws js (codes "g2") page).1.rows ≡ codes "g2" ∷ [])
    × ((change_gw_page_size js (codes "10") page).0.gw_view.page_size ≡ 10)
    × (go_to_gw_page js 9 page ≡ none)
unfolding gw_property gw_matches gw_sort_text gw_compare gw_visible gw_row render_gw_table
    render_gw_pagination gw_screen apply_gw_filters_and_render go_to_gw_page Gateways.sort_by
    search_gws change_gw_page_size
gateways_shown = (refl, refl, refl, refl, refl)

organizations_shown :
    (map (λ r. r.id) (Orgs.sort_by js (codes "name") page).1.rows
      ≡ codes "beta" ∷ codes "acme" ∷ [])
    × (map (λ r. r.app_count) (Orgs.sort_by js (codes "net_count") page).1.rows ≡ 2 ∷ 5 ∷ [])
    × (map (λ r. r.id) (search_orgs js (codes "bet") page).1.rows ≡ codes "beta" ∷ [])
    × ((change_page_size js (codes "10") page).0.org_view.page_size ≡ 10)
    × (go_to_page js 9 page ≡ none)
unfolding org_property app_count dp_count dev_count org_matches org_sort_text org_compare
    org_visible org_row render_table render_pagination org_screen apply_filters_and_render
    go_to_page Orgs.sort_by search_orgs change_page_size
organizations_shown = (refl, refl, refl, refl, refl)

devices_shown :
    (map (λ r. r.id) (apply_dev_filters_and_render js page).1.rows ≡ codes "01" ∷ codes "02" ∷ [])
    × (map (λ r. r.id) (sort_dev_by js (codes "dev_eui") page).1.rows
        ≡ codes "02" ∷ codes "01" ∷ [])
    × (map (λ r. r.id) (apply_dev_int_filters_and_render js page).1.rows
        ≡ codes "01" ∷ codes "02" ∷ [])
    × (go_to_dev_int_page js 9 page ≡ none)
unfolding dev_property dev_sort_text dev_compare dev_int_sort_text dev_int_compare dev_matches
    dev_int_visible dev_row render_dev_table render_dev_pagination dev_screen dev_int_row
    render_dev_int_table render_dev_int_pagination dev_int_screen apply_dev_int_filters_and_render
    apply_dev_filters_and_render sort_dev_by go_to_dev_int_page
devices_shown = (refl, refl, refl, refl)

simulated_shown :
    (map (λ r. r.uplink_count) (apply_dev_status_filters_and_render js [] [] page).1.rows
      ≡ 3 ∷ 7 ∷ [])
    × (go_to_dev_status_page js [] [] 9 page ≡ none)
    × (map (λ g. g.uplink_count) (apply_gw_status_filters_and_render js [] page).1.rows
        ≡ 4 ∷ 1 ∷ [])
    × (go_to_gw_status_page js [] 9 page ≡ none)
unfolding is_count_key dev_status_property gw_status_property dev_status_matches dev_status_passes
    dev_status_compare gw_status_matches gw_status_passes gw_status_compare dev_status_row
    render_dev_status_table render_gw_status_table render_dev_status_pagination
    render_gw_status_pagination dev_status_screen gw_status_screen dev_status_visible
    apply_dev_status_filters_and_render gw_status_visible apply_gw_status_filters_and_render
    go_to_dev_status_page go_to_gw_status_page
simulated_shown = (refl, refl, refl, refl)
