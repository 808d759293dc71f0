-- ===== src/Tests/Fetches.antt =====
-- The theorems on the lists that the server sends at concrete answers.
use mathlib.Core.List.{Perm}
use chirpstack_simulator.Prelude.{
  Text, true, false, none, some, List, [], ◌∷◌, codes, text_eq, text_eq_iff, text_eq_refl, length,
  take, drop, ◌≡◌, refl, ap, sym, ◌∙◌, ◌⊎◌, inl, inr, Bool-cases, arith,
}
use chirpstack_simulator.Table.Defs.{page_items, Screen}
use chirpstack_simulator.State.{State, Device, Organization}
use chirpstack_simulator.Tabs.Names.{find_org, find_net, find_dp}
use chirpstack_simulator.Tabs.Orgs.{OrgRow, apply_filters_and_render}
use chirpstack_simulator.Tabs.Profiles.{apply_dp_filters_and_render}
use chirpstack_simulator.Tabs.Devices.{
  apply_dev_filters_and_render, apply_dev_int_filters_and_render,
}
use chirpstack_simulator.Tabs.Devices.Fetching.{
  DevServer, Listed, fetch_devices, go_to_dev_page, delete_device, create_device, search_dev,
  change_dev_page_size, rendered, page_received, all_received,
}
use chirpstack_simulator.Tabs.Devices.Pages.{Cuts, go_to_dev_page-page_items}
use mathlib.Core.List.{Mem}
use chirpstack_simulator.State.{Application, DeviceProfile}
use chirpstack_simulator.Tabs.Devices.Drawer.{
  Details, Drawer, open_dev_drawer, save_request, select_value, app_options, profile_options,
  populate_dev_edit_app_select, on_dev_edit_app_change,
}
use chirpstack_simulator.Tabs.Devices.Drawer.OneTenant.{
  DrawerReached, opens, save_request-one_tenant,
}
use chirpstack_simulator.Tabs.Fetching.{
  delete_organization, create_organization, delete_application, create_application,
  fetch_applications, fetch_gateways, delete_gateway, create_gateway, fetch_device_profiles,
  delete_device_profile, create_device_profile,
}
use chirpstack_simulator.Tabs.Fetching.Active.{org_of, Selects, delete_organization-Selects}
use chirpstack_simulator.Tests.Data.{js, page, device, organization}

abbrev one : Text → Text → List Device
one tenant search = device (codes "01") ∷ []

abbrev two : Text → Text → List Device
two tenant search = device (codes "02") ∷ device (codes "01") ∷ []

abbrev server : (Text → Text → List Device) → DevServer
server stored = record {
  list_page = λ q. some (
    take q.limit (drop q.offset (stored q.tenant_id q.search)),
    length (stored q.tenant_id q.search),
  );
  list_all = λ tenant. some (stored tenant []);
}

server-Cuts : (stored : Text → Text → List Device) → Cuts (server stored) stored
server-Cuts stored q = refl

-- One device on each page, and the second page shown.
abbrev second : State
second = record page { dev_view = record page.dev_view { page = 2; page_size = 1 } }

go_to_dev_page-page_items_example :
    (shown : Listed) × (go_to_dev_page js (server two) 2 second ≡ some shown)
    × Perm shown.state.dev_view.filtered (page_items 2 1 (two [] []))
    × (shown.state.dev_view.page ≡ 2)
    × (shown.state.dev_total_count ≡ 2)
go_to_dev_page-page_items_example =
    go_to_dev_page-page_items js (server two) two 2 second (server-Cuts two) (omega arith)
      (omega arith) (omega arith)

abbrev acme_only : List Organization
acme_only = organization (codes "acme") ∷ []

acme_kept :
    (other : Text)
    → text_eq other (codes "beta") ≡ false
    → org_of acme_only other ≡ org_of page.organizations other
acme_kept other h = elim (Bool-cases (text_eq (codes "beta") other)) [
  | inl e ↦
      let same : codes "beta" ≡ other = (text_eq_iff (codes "beta") other).0 e in
      absurd (
        cc
          (sym (ap (λ (t : Text). text_eq t (codes "beta")) same) ∙ text_eq_refl (codes "beta"), h))
  | inr e ↦ simp e refl
]

found_beta : find_org page (codes "beta") ≡ some (organization (codes "beta"))
unfolding find_org
found_beta = refl

delete_organization-Selects_example :
    (r : State × Screen OrgRow) × (delete_organization js true true
        (some acme_only)
        (codes "beta")
        page
      ≡ some r)
    × ((acme_only ≡ []) ⊎ Selects acme_only r.0.active_org_id)
delete_organization-Selects_example =
    delete_organization-Selects js page (codes "beta") (organization (codes "beta")) acme_only
      found_beta (inr (organization (codes "acme"), refl)) acme_kept

-- A refused deletion or creation, and an early return, draw nothing.
refused :
    (delete_device js (server two) true false (codes "02") second ≡ none)
    × (create_device js (server two) false second ≡ none)
    × (go_to_dev_page js (server two) 3 second ≡ none)
    × (delete_organization js false true none (codes "acme") page ≡ none)
    × (create_organization js none none page ≡ none)
    × (delete_application js true false none (codes "a") page ≡ none)
    × (create_application js false none page ≡ none)
    × (fetch_gateways js none page ≡ none)
    × (delete_gateway js true false none (codes "g1") page ≡ none)
    × (create_gateway js false none page ≡ none)
    × (delete_device_profile js true false none (codes "p1") page ≡ none)
    × (create_device_profile js false none page ≡ none)
unfolding find_org find_net find_dp delete_device create_device go_to_dev_page delete_organization
    create_organization delete_application create_application fetch_gateways delete_gateway
    create_gateway delete_device_profile create_device_profile fetch_applications
refused = (refl, refl, refl, refl, refl, refl, refl, refl, refl, refl, refl, refl)

-- A list of profiles that cannot be loaded is shown empty, and a search starts on the first page.
emptied :
    ((fetch_device_profiles js none page).0.dp_list ≡ [])
    × ((search_dev js (server two) (codes "x") second).state.dev_view.page ≡ 1)
    × ((change_dev_page_size js (server two) (codes "10") second).state.dev_view.page_size ≡ 10)
unfolding fetch_device_profiles search_dev change_dev_page_size fetch_devices rendered
    apply_filters_and_render apply_dp_filters_and_render apply_dev_filters_and_render
    apply_dev_int_filters_and_render page_received all_received
emptied = (refl, refl, refl)

abbrev empty_drawer : Drawer
empty_drawer = record {
  active_dev_eui = [];
  dev_edit_name = [];
  dev_edit_app = [];
  dev_edit_profile = [];
  dev_edit_description = [];
  dev_edit_is_disabled = false;
  is_open = false;
}

abbrev details : Details
details = record {
  dev_eui = codes "01";
  name = codes "sensor";
  application_id = codes "a";
  device_profile_id = codes "p2";
  description = [];
  is_disabled = false;
}

abbrev filled : Drawer
filled = open_dev_drawer page (some details) (codes "01") empty_drawer

filled-DrawerReached : DrawerReached page filled
filled-DrawerReached =
    DrawerReached.then_step (DrawerReached.starts empty_drawer refl)
      (opens (some details) (codes "01"))

-- An unchanged device is saved as it was.
unchanged : save_request filled ≡ some details
unfolding open_dev_drawer save_request select_value app_options profile_options
    populate_dev_edit_app_select on_dev_edit_app_change find_net
unchanged = refl

save_request-one_tenant_example :
    (app : Application) × (dp : DeviceProfile) × (find_net page (codes "a") ≡ some app)
    × Mem dp page.dp_list
    × (dp.id ≡ codes "p2")
    × (dp.tenant_id ≡ app.tenant_id)
save_request-one_tenant_example =
    save_request-one_tenant page filled details filled-DrawerReached unchanged
