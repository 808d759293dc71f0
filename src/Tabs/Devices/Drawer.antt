-- ===== src/Tabs/Devices/Drawer.antt =====
-- internal/api/frontend/js/tabs/device-list.js: the drawer in which a device is edited. The lists of
-- networks and of profiles stay as they are while it is open.
pub mod OneTenant
use chirpstack_simulator.Prelude.{
  Bool, true, false, not, ◌&&◌, ◌||◌, Option, none, some, List, [], ◌∷◌, Text, text_eq, truthy,
  trim, find_by, filter_by, map, if◌then◌else◌,
}
use chirpstack_simulator.State.{State, Application, DeviceProfile}
use chirpstack_simulator.Tabs.Names.{find_net}
use chirpstack_simulator.OrgConfig.Boxes.{contains}

-- `r.data` of a device, and the body of the request that saves one.
pub record Details : Type 0 where
  pub dev_eui : Text
  pub name : Text
  pub application_id : Text
  pub device_profile_id : Text
  pub description : Text
  pub is_disabled : Bool

-- `state.activeDevEui`, and the values of the fields.
pub record Drawer : Type 0 where
  pub active_dev_eui : Text
  pub dev_edit_name : Text
  pub dev_edit_app : Text
  pub dev_edit_profile : Text
  pub dev_edit_description : Text
  pub dev_edit_is_disabled : Bool
  pub is_open : Bool

-- The value of a <select> that is filled with options, and then set to `wanted` if that is not empty: the
-- browser selects the first option, and none for a value that no option has.
unfoldable pub select_value : List Text → Text → Text
select_value [] wanted = []
select_value (o ∷ os) wanted =
    if truthy wanted then (if contains wanted (o ∷ os) then wanted else []) else o

unfoldable pub app_options : State → List Text
app_options s = map (λ (a : Application). a.id) s.applications

-- The profiles that are offered for a network, by `findNet` and its tenant.
unfoldable pub profile_options : State → Text → List Text
profile_options s app_id = elim (find_net s app_id) [
  | none ↦ []
  | some app ↦
      map (λ (dp : DeviceProfile). dp.id)
        (filter_by (λ (dp : DeviceProfile). text_eq dp.tenant_id app.tenant_id) s.dp_list)
]

unfoldable pub populate_dev_edit_app_select : State → Text → Drawer → Drawer
populate_dev_edit_app_select s selected d = record d {
  dev_edit_app = select_value (app_options s) selected;
}

unfoldable pub on_dev_edit_app_change : State → Text → Drawer → Drawer
on_dev_edit_app_change s selected d = record d {
  dev_edit_profile = select_value (profile_options s d.dev_edit_app) selected;
}

-- openDevDrawer from the answer on, where `none` is one that is not ok.
unfoldable pub open_dev_drawer : State → Option Details → Text → Drawer → Drawer
open_dev_drawer s none dev_eui d = d
open_dev_drawer s (some dev) dev_eui d =
    let filled = record d {
      active_dev_eui = dev_eui;
      dev_edit_name = dev.name;
      dev_edit_description = dev.description;
      dev_edit_is_disabled = dev.is_disabled;
    } in
    let listed = populate_dev_edit_app_select s dev.application_id filled in
    record (on_dev_edit_app_change s dev.device_profile_id listed) { is_open = true }

unfoldable pub close_dev_drawer : Drawer → Drawer
close_dev_drawer d = record d { is_open = false; active_dev_eui = [] }

-- The request of saveDevice, where `none` is an early return.
unfoldable pub save_request : Drawer → Option Details
save_request d =
    if not (truthy d.active_dev_eui)
      || not (truthy (trim d.dev_edit_name))
      || not (truthy d.dev_edit_app)
      || not (truthy d.dev_edit_profile)
    then none
    else some (record {
      dev_eui = d.active_dev_eui;
      name = trim d.dev_edit_name;
      application_id = d.dev_edit_app;
      device_profile_id = d.dev_edit_profile;
      description = trim d.dev_edit_description;
      is_disabled = d.dev_edit_is_disabled;
    })

-- saveDevice from its request on, as far as the drawer goes; after a save the devices are fetched.
unfoldable pub save_sent : Option Details → Bool → Drawer → Drawer
save_sent none accepts d = d
save_sent (some request) accepts d = if accepts then close_dev_drawer d else d

unfoldable pub save_device : Bool → Drawer → Drawer
save_device accepts d = save_sent (save_request d) accepts d
