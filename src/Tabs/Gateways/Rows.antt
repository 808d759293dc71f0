-- ===== src/Tabs/Gateways/Rows.antt =====
-- What the gateway table shows: which rows and in which order.
use chirpstack_simulator.Prelude.{
  Bool, not, ◌&&◌, ◌||◌, filter_by, truthy, text_eq, two_filters, ◌≡◌,
}
use chirpstack_simulator.Table.Order.{IsOrder, on-IsOrder}
use chirpstack_simulator.Table.Rows.{Shows, refilter-Shows}
use chirpstack_simulator.State.{Engine, State, Gateway}
use chirpstack_simulator.Tabs.Gateways.{
  gw_compare, gw_sort_text, gw_matches, gw_visible, apply_gw_filters_and_render,
}

-- What one gateway needs to be listed: the selected tenant, if there is one, and the search text.
pub gw_wanted : Engine → State → Gateway → Bool
gw_wanted js s gw =
    (not (truthy s.gw_view.tenant_filter) || text_eq gw.tenant_id s.gw_view.tenant_filter)
    && (not (truthy (js.to_lower s.gw_view.search_query))
        || gw_matches js (js.to_lower s.gw_view.search_query) gw)

gw_visible-gw_wanted :
    (js : Engine) (s : State) → gw_visible js s ≡ filter_by (gw_wanted js s) s.gateways
unfolding gw_visible gw_wanted
gw_visible-gw_wanted js s =
    two_filters (truthy s.gw_view.tenant_filter) (truthy (js.to_lower s.gw_view.search_query))
      (λ gw. text_eq gw.tenant_id s.gw_view.tenant_filter)
      (gw_matches js (js.to_lower s.gw_view.search_query)) s.gateways

-- Where the engine's `localeCompare` is an order, the gateway table holds after its filters exactly
-- the gateways of the selected tenant (if one is selected) that match the search (if there is one),
-- each as often as the server sent it, in the chosen order.
pub apply_gw_filters_and_render-Shows :
    (js : Engine) (s : State)
    → IsOrder js.locale_compare
    → Shows
        (gw_compare js s.gw_view.sort.key)
        (filter_by (gw_wanted js s) s.gateways)
        (apply_gw_filters_and_render js s).0.gw_view
unfolding apply_gw_filters_and_render gw_compare
apply_gw_filters_and_render-Shows js s locale = rw (← gw_visible-gw_wanted js s) (
    refilter-Shows (on-IsOrder (gw_sort_text js s.gw_view.sort.key) locale) (gw_visible js s)
      s.gw_view)
