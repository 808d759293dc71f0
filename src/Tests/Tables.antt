-- ===== src/Tests/Tables.antt =====
-- The theorems on tables at the concrete page.
use mathlib.Core.List.{Perm}
use chirpstack_simulator.Prelude.{◌≡◌, length, filter_by, arith, refl}
use chirpstack_simulator.Table.Defs.{total_pages, asc}
use chirpstack_simulator.Tests.Data.{js, page, networks}
use chirpstack_simulator.Tabs.Networks.{app_visible, apply_app_filters_and_render}
use chirpstack_simulator.Tabs.Orgs.{org_visible}
use chirpstack_simulator.Table.Paging.{pages_from, pages_from-all}
use chirpstack_simulator.Prelude.Sorting.{IsSorted}
use chirpstack_simulator.Tabs.Networks.Listed.{
  above_in, by_name, is_listed, apply_app_filters_and_render-Shows,
}

pages_from-all_example : pages_from 0 (total_pages 7 3) 3 networks ≡ networks
pages_from-all_example = pages_from-all 3 networks (omega arith)

apply_app_filters_and_render-Shows_example :
    let shown = (apply_app_filters_and_render js page).0.net_view.filtered in
    IsSorted (above_in asc js page by_name) shown
    × Perm shown (filter_by (is_listed js page) page.applications)
apply_app_filters_and_render-Shows_example =
    apply_app_filters_and_render-Shows js page by_name refl refl

five_networks : length (app_visible js page) ≡ 5
unfolding app_visible
five_networks = refl

two_organizations : length (org_visible js page) ≡ 2
unfolding org_visible
two_organizations = refl
