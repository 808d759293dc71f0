-- ===== src/Tabs/FilterSelects.antt =====
-- The selects of tenants over the tables and over the chart, which fetchOrganizations and
-- loadDashboardData fill: populate…FilterTenantSelect of tabs/networks.js, devices.js, device-list.js
-- and gateways.js, populateChartOrgSelect of tabs/dashboard.js, and populateStatusFilters of
-- tabs/device-status.js. An option is its value. A value that no option has leaves a select blank.
pub mod Values
pub mod Status
use chirpstack_simulator.OrgConfig.Boxes.{contains}
use chirpstack_simulator.State.{State, Organization, Application}
use chirpstack_simulator.Prelude.{
  text_or, List, [], Text, if◌then◌else◌, ◌∷◌, codes, truthy, map, filter_by, text_eq, Bool, ℕ,
}
use Prim.Native.String.{[]}

pub record Select : Type 0 where
  pub options : List Text
  pub value : Text

-- The empty option, which stands for all, and one for each organization.
unfoldable pub org_options : State → List Text
org_options s = [] ∷ map (λ (o : Organization). o.id) s.organizations

-- `select.value = wanted`
unfoldable pub assign : List Text → Text → Select
assign options wanted = record {
  options = options;
  value = if contains wanted options then wanted else [];
}

unfoldable pub populate_net_filter_tenant_select : State → Select
populate_net_filter_tenant_select s = assign (org_options s) s.net_view.tenant_filter

unfoldable pub populate_dp_filter_tenant_select : State → Select
populate_dp_filter_tenant_select s = assign (org_options s) s.dp_view.tenant_filter

-- This one assigns no value: the select stands on its first option.
unfoldable pub populate_dev_filter_tenant_select : State → Select
populate_dev_filter_tenant_select s = record { options = org_options s; value = [] }

unfoldable pub populate_gw_filter_tenant_select : State → Select → Select
populate_gw_filter_tenant_select s select = assign (org_options s) select.value

unfoldable pub populate_chart_org_select : State → Select → Select
populate_chart_org_select s select =
    let current = text_or select.value (codes "all") in
    let options = codes "all" ∷ map (λ (o : Organization). o.id) s.organizations in
    record { options = options; value = if contains current options then current else codes "all" }

pub record StatusSelects : Type 0 where
  pub org : Select
  pub app : Select

-- The networks of the tenant that the first select shows, or all.
unfoldable pub offered_apps : State → Text → List Application
offered_apps s org_id =
    if truthy org_id
    then filter_by (λ (app : Application). text_eq app.tenant_id org_id) s.applications
    else s.applications

unfoldable pub app_options : State → Text → List Text
app_options s org_id = [] ∷ map (λ (app : Application). app.id) (offered_apps s org_id)

unfoldable pub populate_status_filters : State → StatusSelects → StatusSelects
populate_status_filters s selects =
    let org = assign (org_options s) selects.org.value in
    record { org = org; app = assign (app_options s org.value) selects.app.value }

-- The two selects of the device status, with the filters and the pages that the tables read.
pub record StatusFilters : Type 0 where
  pub selects : StatusSelects
  pub dev_status_org_filter : Text
  pub dev_status_app_filter : Text
  pub dev_status_page : ℕ
  pub gw_status_page : ℕ

-- fetchSimulationDevices and fetchSimulationGateways, with a good answer, up to the table, and the end
-- of initDeviceStatusTab.
unfoldable pub refill_status : State → StatusFilters → StatusFilters
refill_status s f = record f { selects = populate_status_filters s f.selects }

unfoldable pub on_status_org_change : State → Text → StatusFilters → StatusFilters
on_status_org_change s value f = refill_status s (record {
  selects = record {
    org = record f.selects.org { value = value };
    app = record f.selects.app { value = [] };
  };
  dev_status_org_filter = value;
  dev_status_app_filter = [];
  dev_status_page = 1;
  gw_status_page = 1;
})

unfoldable pub on_status_app_change : Text → StatusFilters → StatusFilters
on_status_app_change value f = record f {
  selects = record f.selects { app = record f.selects.app { value = value } };
  dev_status_app_filter = value;
  dev_status_page = 1;
}

-- The selects of the page, and what fetchOrganizations fills: `ok` is whether the list has come.
pub record Selects : Type 0 where
  pub net : Select
  pub dp : Select
  pub dev : Select
  pub gw : Select
  pub chart : Select

unfoldable pub fill_selects : Bool → State → Selects → Selects
fill_selects ok s selects = record selects {
  dp = populate_dp_filter_tenant_select s;
  net = populate_net_filter_tenant_select s;
  dev = populate_dev_filter_tenant_select s;
  chart = if ok then populate_chart_org_select s selects.chart else selects.chart;
}
