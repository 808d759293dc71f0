-- ===== src/Tabs/FilterSelects/Values.antt =====
-- What the selects show beside the filters that are in force.
use chirpstack_simulator.State.{State}
use chirpstack_simulator.Tabs.FilterSelects.{
  Selects, org_options, assign, fill_selects, populate_net_filter_tenant_select,
  populate_dp_filter_tenant_select, populate_dev_filter_tenant_select, List, Text, Bool,
}
use chirpstack_simulator.OrgConfig.Boxes.{contains}
use chirpstack_simulator.Prelude.{List, Text, Bool, truthy, ◌≡◌, [], true, ◌∷◌, ◌≢◌, refl}

pub assign-known :
    (options : List Text) (wanted : Text)
    → contains wanted options ≡ true
    → (assign options wanted).value ≡ wanted
unfolding assign
assign-known options wanted e = rw e refl

not_empty : (s : Text) → truthy s ≡ true → [] ≢ s
not_empty [] t = cc
not_empty (c ∷ s) t = λ e. cc e

-- When the organizations have been loaded, the selects over the networks and the profiles show the
-- tenant by which their tables are filtered, as long as that tenant is still there; the select over the
-- devices never does, where a tenant is set: it shows all tenants, and the filter stays in force.
pub fill_selects_stale :
    (ok : Bool) (s : State) (selects : Selects)
    → contains s.net_view.tenant_filter (org_options s) ≡ true
    → contains s.dp_view.tenant_filter (org_options s) ≡ true
    → truthy s.dev_view.tenant_filter ≡ true
    → ((fill_selects ok s selects).net.value ≡ s.net_view.tenant_filter)
      × ((fill_selects ok s selects).dp.value ≡ s.dp_view.tenant_filter)
      × ((fill_selects ok s selects).dev.value ≡ [])
      × ((fill_selects ok s selects).dev.value ≢ s.dev_view.tenant_filter)
unfolding fill_selects populate_net_filter_tenant_select populate_dp_filter_tenant_select
    populate_dev_filter_tenant_select
fill_selects_stale ok s selects n d t = (
  assign-known (org_options s) s.net_view.tenant_filter n,
  assign-known (org_options s) s.dp_view.tenant_filter d,
  refl,
  not_empty s.dev_view.tenant_filter t,
)
