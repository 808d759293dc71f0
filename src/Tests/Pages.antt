-- ===== src/Tests/Pages.antt =====
-- The theorems on the codec, the drawer of details, the form of a start and the selects at concrete
-- inputs.
use chirpstack_simulator.Tabs.FilterSelects.Status as Status
use chirpstack_simulator.Passive.Locks.Kept as Kept
use chirpstack_simulator.Telemetry.Codec.Owner as Owner
use chirpstack_simulator.Telemetry.Codec.{
  Config, Codec, save_telemetry_script, load_answered, select_org, save_with,
  load_org_telemetry_config, detect_and_select_template, template_of,
}
use chirpstack_simulator.Telemetry.Codec.Owner.{save_telemetry_script-owner}
use chirpstack_simulator.Dashboard.Form.{Value, collect_config, setting}
use chirpstack_simulator.Dashboard.Form.Entries.{Carries, expected, collect_config-Holds}
use Prim.Native.String.{[]}
use chirpstack_simulator.Prelude.{
  Text, codes, [], true, none, All, Option, ◌∷◌, if◌then◌else◌, some, false, ◌≡◌, ◌++◌, refl,
  text_eq, trim, truthy, length, map, List, arith,
}
use chirpstack_simulator.Tabs.Details.{NetPage, save_application, Put, save_answered, plain}
use chirpstack_simulator.State.{Application}
use chirpstack_simulator.Tabs.Names.{find_net}
use chirpstack_simulator.Tests.Data.{network, page, js}
use chirpstack_simulator.Tabs.Details.Saved.{save_application-saved}
use chirpstack_simulator.Passive.Locks.{Element, Ui, render_table, apply_passive_mode_ui}
use chirpstack_simulator.Passive.Locks.Kept.{Agrees, Reached-Agrees, renders}
use chirpstack_simulator.Dashboard.Map.{org_apps, update_map, org_devices, Hub}
use chirpstack_simulator.Dashboard.Map.Connected.{AllDrawn, update_map-connected}
use chirpstack_simulator.OrgConfig.Loading.{Local, local_value}
use chirpstack_simulator.Settings.Stored.{last_typed, last_checked, startup_value-typed}
use chirpstack_simulator.Settings.{
  is_stored, general_field_ids, Entry, types, startup_value, checks, enter_all, startup_checked,
}
use chirpstack_simulator.Tabs.FilterSelects.{
  org_options, app_options, offered_apps, on_status_org_change, refill_status,
  populate_status_filters, assign, on_status_app_change,
}
use chirpstack_simulator.Tabs.FilterSelects.Status.{
  InStep, start, Reached-InStep, org_chosen, app_chosen,
}

abbrev pub acme_config : Config (Unit {0})
acme_config = record { tenant_id = codes "acme"; payload_script = codes "return [1];"; rest = tt }

abbrev pub no_codec : Codec (Unit {0})
no_codec = record {
  options = [] ∷ codes "acme" ∷ codes "beta" ∷ [];
  selected = [];
  template = codes "custom";
  script = [];
  can_edit = false;
  can_save = false;
  active_org_config = none;
  previewed = false;
}

abbrev pub no_templates : Text → Option Text
no_templates name = none

abbrev pub codec : Codec (Unit {0})
codec = record no_codec {
  selected = codes "acme";
  script = codes "return [1];";
  can_edit = true;
  can_save = true;
  active_org_config = some acme_config;
}

-- After the load of acme, the load of beta fails.
abbrev beta_codec : Codec (Unit {0})
beta_codec = record codec { selected = codes "beta" }

beta_failed : Owner.Reached no_templates (codes "beta") (codes "acme") beta_codec
unfolding load_answered select_org load_org_telemetry_config detect_and_select_template template_of
beta_failed =
    Owner.Reached.fails (codes "beta") refl (
      Owner.Reached.loads (codes "acme") acme_config refl refl (Owner.Reached.starts no_codec refl))

save_telemetry_script-owner_example :
    (codes "/api/org-configs/beta" ≡ codes "/api/org-configs/" ++ codes "beta")
    × (codes "acme" ≡ codes "acme")
    × (codes "return [1];" ≡ trim beta_codec.script)
unfolding save_telemetry_script save_with
save_telemetry_script-owner_example =
    save_telemetry_script-owner no_templates {c = beta_codec}
      {post = record { path = codes "/api/org-configs/beta"; body = acme_config }} beta_failed refl

abbrev pub elements : Text → Option Text
elements key =
    if text_eq key (codes "tenant_id")
    then some (codes " acme ")
    else if text_eq key (codes "device_count")
    then some (codes "12 ")
    else if text_eq key (codes "payload")
    then some (codes "  ")
    else none

abbrev pub no_float : Text → Unit {0}
no_float s = tt

no_key :
    All
      (λ (row : Text × (Text → Value no_float)). text_eq (row.0) (codes "mode") ≡ false)
      (expected no_float elements)
no_key = (
  refl,
  (
    refl,
    (
      refl,
      (
        refl,
        (
          refl,
          (
            refl,
            (
              refl,
              (
                refl,
                (refl, (refl, (refl, (refl, (refl, (refl, (refl, (refl, (refl, (refl, tt)))))))))),
              ),
            ),
          ),
        ),
      ),
    ),
  ),
)

collect_config-Holds_example :
    All (Carries no_float elements (collect_config no_float elements)) (expected no_float elements)
    × (setting no_float (codes "mode") (collect_config no_float elements) ≡ none)
collect_config-Holds_example = collect_config-Holds no_float elements (codes "mode") no_key

abbrev pub net_page : NetPage
net_page = record {
  state = page;
  drawer = record { is_open = true; title = codes "a"; subtitle = plain []; body = plain [] };
  name_input = codes " pumps ";
  desc_input = [];
  save_enabled = true;
}

save_application-saved_example :
    let put : Put = record {
      path = codes "/api/applications/a";
      name = codes "pumps";
      description = [];
    } in
    let waiting = (save_application (network (codes "a") (codes "acme")) net_page).0 in
    let net = network (codes "a") (codes "acme") in
    let after = (save_answered js true net put waiting).0 in
    let refused = (save_answered js false net put waiting).0 in
    (truthy put.name ≡ true)
    × (find_net after.state net.id ≡ some (record net { name = codes "pumps"; description = [] }))
    × (find_net after.state (codes "b") ≡ find_net page (codes "b"))
    × (length after.state.applications ≡ length page.applications)
    × (after.drawer.is_open ≡ false)
    × (refused.state ≡ page)
    × (refused.drawer ≡ waiting.drawer)
unfolding save_application find_net
save_application-saved_example =
    save_application-saved js (network (codes "a") (codes "acme"))
      (network (codes "a") (codes "acme")) net_page
      (record { path = codes "/api/applications/a"; name = codes "pumps"; description = [] })
      (codes "b") refl refl refl

abbrev pub as_is : Text → Text
as_is s = s

abbrev pub near : Text → Text → Text
near eui place = place

update_map-connected_example :
    let drawing = update_map as_is near none page in
    (map (λ (h : Hub as_is near). h.app_id) drawing.hubs
      ≡ map (λ (app : Application). some app.id) (org_apps as_is near page))
    × AllDrawn as_is near
        (org_apps as_is near page)
        drawing.hubs
        (org_devices as_is near page)
        drawing.devices
unfolding org_apps
update_map-connected_example = update_map-connected as_is near none page (omega arith)

abbrev pub edit_button : Element
edit_button = record {
  selector = codes ".edit-btn";
  disabled = false;
  passive_locked = false;
  title = some (codes "Düzenle");
}

abbrev pub blank_ui : Ui
blank_ui = record {
  passive_mode = false;
  badge_shown = false;
  buttons = [];
  rows = λ i. [];
  toggle_checked = false;
  options_shown = false;
  manual_sync_disabled = true;
}

Reached-Agrees_example : Agrees (codes "locked") (
    render_table
      (codes "locked")
      2
      (edit_button ∷ [])
      (apply_passive_mode_ui (codes "locked") true blank_ui))
Reached-Agrees_example =
    Reached-Agrees
      (Kept.Reached.then_event (Kept.Reached.starts blank_ui true) (renders 2 (edit_button ∷ [])))

abbrev pub nothing_stored : Local
nothing_stored = record { storage = λ key. none; default_value = λ id. []; default_checked = false }

abbrev pub entries : List Entry
entries =
    types (codes "duration") (codes " 9m ")
    ∷ checks true
    ∷ types (codes "payload") (codes "01")
    ∷ []

startup_value-typed_example :
    (startup_value (enter_all entries nothing_stored) (codes "duration") ≡ codes "9m")
    × (local_value (enter_all entries nothing_stored) (codes "duration") ≡ codes "9m")
    × (startup_checked (enter_all entries nothing_stored) ≡ true)
unfolding last_typed last_checked is_stored general_field_ids
startup_value-typed_example = startup_value-typed (codes "duration") entries nothing_stored refl

Reached-InStep_example :
    InStep page
      (on_status_app_change (codes "b") (on_status_org_change page (codes "acme") (start page)))
unfolding org_options app_options offered_apps on_status_org_change refill_status
    populate_status_filters assign
Reached-InStep_example = Reached-InStep page (
    Status.Reached.then_event
      (Status.Reached.then_event Status.Reached.starts (org_chosen (codes "acme") refl))
      (app_chosen (codes "b") refl))
