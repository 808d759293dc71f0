-- ===== src/Tabs/Devices/Stale.antt =====
-- What the table of the devices shows after a sort, and after a deletion on the last page.
use mathlib.Core.List.{Perm}
use mathlib.Core.List.Perm
use mathlib.Core.Path.{subst}
use chirpstack_simulator.Prelude.{
  ◌<◌, ◌≤◌, Option, none, some, List, Text, length, ◌≡◌, refl, ap, ◌∙◌, arith, [], Bool-cases,
  find_by, text_eq, inl, true, inr,
}
use chirpstack_simulator.Table.Defs.{page_items, total_pages, refilter, View, is_empty, toggle_sort}
use chirpstack_simulator.Table.Paging.{page_items_past}
use chirpstack_simulator.Table.Rows.{refilter-Shows}
use chirpstack_simulator.State.{Engine, State, Device}
use chirpstack_simulator.Tabs.Devices.{
  dev_compare, apply_dev_filters_and_render, apply_dev_int_filters_and_render, sort_dev_by,
}
use chirpstack_simulator.Tabs.Devices.Rows.{dev_compare-IsOrder}
use chirpstack_simulator.Tabs.Devices.Fetching.{DevServer, Listed, fetch_devices, delete_device}
use chirpstack_simulator.Tabs.Devices.Pages.{Cuts, received, rendered_lem, fetched}

module _ (js : Engine) where
  toggle_page : (key : Text) (v : View Device) → ((toggle_sort key v).page ≡ 1)
  toggle_page key v = elim (Bool-cases (text_eq v.sort.key key)) [
    | inl e ↦ simp e refl
    | inr e ↦ simp e refl
  ]

  -- Sorting the device table puts the page number back to 1 and asks the server for nothing: sorted
  -- after a fetch of any page, the table has the rows of that page under the number 1, for a server
  -- that cuts its pages and a page number and a page size of at least 1.
  pub sort_dev_by_stale :
      (server : DevServer) (stored : Text → Text → List Device) (key : Text) (s : State)
      → Cuts server stored
      → 0 < s.dev_view.page_size
      → 1 ≤ s.dev_view.page
      → let matching = stored s.dev_view.tenant_filter s.dev_view.search_query in
        let sorted =
          (sort_dev_by js key (fetch_devices js server s.dev_view.tenant_filter s).state).0 in
        (sorted.dev_view.page ≡ 1)
        × Perm sorted.dev_view.filtered (page_items s.dev_view.page s.dev_view.page_size matching)
  unfolding sort_dev_by apply_dev_filters_and_render apply_dev_int_filters_and_render
  sort_dev_by_stale server stored key s c h k =
      let r = fetched js server stored s.dev_view.tenant_filter s c h k in
      let before = (fetch_devices js server s.dev_view.tenant_filter s).state in
      let turned = record before { dev_view = toggle_sort key before.dev_view } in
      let shown =
        refilter-Shows (dev_compare-IsOrder js turned turned.dev_view.sort.key) turned.dev_list
          turned.dev_view in
      (
        toggle_page key before.dev_view,
        subst
            (λ (xs : List Device).
              Perm
                (refilter (dev_compare js turned turned.dev_view.sort.key) turned.dev_list
                  turned.dev_view).filtered
                xs)
            (r.0) (shown.complete),
      )

  no_rows : (xs ys : List Device) → Perm xs ys → ys ≡ [] → xs ≡ []
  no_rows xs ys p e = Perm.eq-nil (subst (Perm xs) e p)

  -- If a listed device is deleted and the devices that are left do not reach the page that is
  -- shown, the table is blank and says that there are no devices, whatever other pages hold, for a
  -- server that cuts its pages and a page size of at least 1.
  pub delete_device_stale :
      (server : DevServer) (stored : Text → Text → List Device) (dev_eui : Text) (d : Device)
      (s : State)
      → Cuts server stored
      → 0 < s.dev_view.page_size
      → find_by (λ (d : Device). text_eq d.dev_eui dev_eui) s.dev_list ≡ some d
      → total_pages
          (length (stored s.dev_view.tenant_filter s.dev_view.search_query))
          s.dev_view.page_size
        < s.dev_view.page
      → (shown : Listed) × (delete_device js server true true dev_eui s ≡ some shown)
        × (shown.state.dev_view.filtered ≡ [])
        × (shown.devices.empty_state ≡ true)
  unfolding delete_device fetch_devices
  delete_device_stale server stored dev_eui d s c h f past =
      let low : 1 ≤ s.dev_view.page = omega arith in
      let matching = stored s.dev_view.tenant_filter s.dev_view.search_query in
      let r = fetched js server stored s.dev_view.tenant_filter s c h low in
      let blank =
        no_rows _ _ (r.4) (page_items_past s.dev_view.page s.dev_view.page_size matching h past) in
      (
        fetch_devices js server s.dev_view.tenant_filter s,
        ap
            (λ (o : Option Device). elim o as (λ x. Option Listed) [
              | none ↦ none
              | some dev ↦ some (fetch_devices js server s.dev_view.tenant_filter s)
            ])
            f,
        blank,
        (rendered_lem js (received js server s.dev_view.tenant_filter s)).3 ∙ ap is_empty blank,
      )
