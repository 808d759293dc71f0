-- ===== src/Tabs/Devices/Pages.antt =====
-- The pages of the devices, which the server cuts.
use mathlib.Core.List.{Perm}
use mathlib.Core.Path.{subst}
use chirpstack_simulator.Prelude.{
  ℕ, zero, suc, ◌-◌, ◌*◌, ◌<◌, ◌≤◌, Option, none, some, List, Text, length, take, drop, ◌≡◌, refl,
  ap, sym, ◌∙◌, arith,
}
use chirpstack_simulator.Table.Defs.{page_items, total_pages, with_page, refilter, View, is_empty}
use chirpstack_simulator.Table.Paging.{page_items-take-drop}
use chirpstack_simulator.Table.Rows.{refilter-Shows}
use chirpstack_simulator.State.{Engine, State, Device}
use chirpstack_simulator.Tabs.Devices.{
  dev_compare, apply_dev_filters_and_render, apply_dev_int_filters_and_render, dev_screen,
}
use chirpstack_simulator.Tabs.Orgs.{apply_filters_and_render}
use chirpstack_simulator.Tabs.Devices.Rows.{dev_compare-IsOrder}
use chirpstack_simulator.Tabs.Devices.Fetching.{
  DevServer, DevQuery, or_number, dev_query, page_received, all_received, Listed, rendered,
  fetch_devices, go_to_dev_page,
}

-- A server that cuts the page it is asked for from the devices that match, `stored tenant_id search`,
-- and counts them.
abbrev pub Cuts : DevServer → (Text → Text → List Device) → Type 0
Cuts server stored =
    (q : DevQuery)
    → server.list_page q
      ≡ some (
        take q.limit (drop q.offset (stored q.tenant_id q.search)),
        length (stored q.tenant_id q.search),
      )

or_number_lem : (a b : ℕ) → 0 < a → or_number a b ≡ a
or_number_lem zero b h = absurd (omega arith)
or_number_lem (suc a) b h = refl

page_cut :
    (page size : ℕ) (xs : List Device)
    → 1 ≤ page
    → take size (drop ((page - 1) * size) xs) ≡ page_items page size xs
page_cut zero size xs h = absurd (omega arith)
page_cut (suc k) size xs h =
    let e : suc k - 1 ≡ k = omega arith in
    ap (λ (j : ℕ). take size (drop (j * size) xs)) e ∙ sym (page_items-take-drop k size xs)

module _ (js : Engine) where
  pub rendered_lem :
      (s : State)
      → ((rendered js s).state.dev_list ≡ s.dev_list)
        × ((rendered js s).state.dev_total_count ≡ s.dev_total_count)
        × ((rendered js s).state.dev_view
            ≡ refilter (dev_compare js s s.dev_view.sort.key) s.dev_list s.dev_view)
        × ((rendered js s).devices.empty_state ≡ is_empty (rendered js s).state.dev_view.filtered)
  unfolding rendered apply_dev_filters_and_render apply_dev_int_filters_and_render
      apply_filters_and_render dev_screen
  rendered_lem s = (refl, refl, refl, refl)

  -- The state that a fetch of the page puts on the screen.
  abbrev pub received : DevServer → Text → State → State
  received server tenant_id s =
      all_received (server.list_all tenant_id)
        (page_received (server.list_page (dev_query tenant_id s)) s)

  all_received_lem :
      (all : Option (List Device)) (s : State)
      → ((all_received all s).dev_list ≡ s.dev_list)
        × ((all_received all s).dev_total_count ≡ s.dev_total_count)
        × ((all_received all s).dev_view ≡ s.dev_view)
  unfolding all_received
  all_received_lem none s = (refl, refl, refl)
  all_received_lem (some ds) s = (refl, refl, refl)

  received_lem :
      (server : DevServer) (stored : Text → Text → List Device) (tenant_id : Text) (s : State)
      → Cuts server stored
      → 0 < s.dev_view.page_size
      → 1 ≤ s.dev_view.page
      → let matching = stored tenant_id s.dev_view.search_query in
        let r = received server tenant_id s in
        (r.dev_list ≡ page_items s.dev_view.page s.dev_view.page_size matching)
        × (r.dev_total_count ≡ length matching)
        × (r.dev_view ≡ s.dev_view)
  unfolding page_received dev_query
  received_lem server stored tenant_id s c h k =
      let q = dev_query tenant_id s in
      let matching = stored tenant_id s.dev_view.search_query in
      let all =
        all_received_lem (server.list_all tenant_id) (page_received (server.list_page q) s) in
      let got = ap (λ (o : Option (List Device × ℕ)). page_received o s) (c q) in
      let limit = or_number_lem s.dev_view.page_size 5 h in
      let number = or_number_lem s.dev_view.page 1 k in
      let cut : take q.limit (drop q.offset matching)
          ≡ take s.dev_view.page_size
              (drop ((s.dev_view.page - 1) * s.dev_view.page_size) matching) =
        rw (limit, number) refl in
      (
        all.0
            ∙ ap (λ (t : State). t.dev_list) got
            ∙ cut
            ∙ page_cut s.dev_view.page s.dev_view.page_size matching k,
        all.1 ∙ ap (λ (t : State). t.dev_total_count) got,
        all.2 ∙ ap (λ (t : State). t.dev_view) got,
      )

  -- What the screen shows after a fetch of a page: the rows of that page, in the order of the view.
  pub fetched :
      (server : DevServer) (stored : Text → Text → List Device) (tenant_id : Text) (s : State)
      → Cuts server stored
      → 0 < s.dev_view.page_size
      → 1 ≤ s.dev_view.page
      → let matching = stored tenant_id s.dev_view.search_query in
        let r = (fetch_devices js server tenant_id s).state in
        (r.dev_list ≡ page_items s.dev_view.page s.dev_view.page_size matching)
        × (r.dev_total_count ≡ length matching)
        × (r.dev_view.page ≡ s.dev_view.page)
        × (r.dev_view.page_size ≡ s.dev_view.page_size)
        × Perm r.dev_view.filtered (page_items s.dev_view.page s.dev_view.page_size matching)
  unfolding fetch_devices
  fetched server stored tenant_id s c h k =
      let got = received server tenant_id s in
      let r = received_lem server stored tenant_id s c h k in
      let drawn = rendered_lem got in
      let shown =
        refilter-Shows (dev_compare-IsOrder js got got.dev_view.sort.key) got.dev_list
          got.dev_view in
      let listed : Perm (fetch_devices js server tenant_id s).state.dev_view.filtered got.dev_list =
        subst (λ (v : View Device). Perm v.filtered got.dev_list) (sym (drawn.2))
          (shown.complete) in
      (
        drawn.0 ∙ r.0,
        drawn.1 ∙ r.1,
        ap (λ (v : View Device). v.page) (drawn.2) ∙ ap (λ (v : View Device). v.page) (r.2),
        ap (λ (v : View Device). v.page_size) (drawn.2)
            ∙ ap (λ (v : View Device). v.page_size) (r.2),
        subst
            (λ (xs : List Device).
              Perm (fetch_devices js server tenant_id s).state.dev_view.filtered xs)
            (r.0) listed,
      )

  in_range :
      (total n : ℕ) (v : View Device)
      → 1 ≤ n
      → n ≤ total_pages total v.page_size
      → with_page total n v ≡ some (record v { page = n })
  in_range total n v lo hi = ground arith

  -- A click on a page number of the device table shows that page: if the number is in range and the
  -- page size at least 1, the rows are those that the server has for it among the devices of the
  -- tenant that match the search, and the count is that of all of these, for a server that cuts its
  -- pages from them.
  pub go_to_dev_page-page_items :
      (server : DevServer) (stored : Text → Text → List Device) (n : ℕ) (s : State)
      → Cuts server stored
      → 0 < s.dev_view.page_size
      → 1 ≤ n
      → n ≤ total_pages s.dev_total_count s.dev_view.page_size
      → let matching = stored s.dev_view.tenant_filter s.dev_view.search_query in
        (shown : Listed) × (go_to_dev_page js server n s ≡ some shown)
        × Perm shown.state.dev_view.filtered (page_items n s.dev_view.page_size matching)
        × (shown.state.dev_view.page ≡ n)
        × (shown.state.dev_total_count ≡ length matching)
  unfolding go_to_dev_page
  go_to_dev_page-page_items server stored n s c h lo hi =
      let at_n = record s { dev_view = record s.dev_view { page = n } } in
      let r = fetched server stored s.dev_view.tenant_filter at_n c h lo in
      (
        fetch_devices js server s.dev_view.tenant_filter at_n,
        ap
            (λ (o : Option (View Device)). elim o as (λ x. Option Listed) [
              | none ↦ none
              | some v ↦
                  some
                    (fetch_devices js server s.dev_view.tenant_filter (record s { dev_view = v }))
            ])
            (in_range s.dev_total_count n s.dev_view lo hi),
        r.4,
        r.2,
        r.1,
      )
