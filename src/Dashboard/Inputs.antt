-- ===== src/Dashboard/Inputs.antt =====
-- internal/api/frontend/js/tabs/orgs.js: updateFormInputsState, which enables and disables the inputs of
-- the drawer and of the settings, and what calls it or changes the inputs beside it.
pub mod Updates
pub mod Guarded
use chirpstack_simulator.OrgConfig.Boxes.{contains}
use chirpstack_simulator.Dashboard.{
  is_running, List, Bool, Option, Text, text_eq, true, codes, some, truthy, not, [], false,
}
use chirpstack_simulator.Prelude.{
  Bool, Option, Text, text_eq, List, if◌then◌else◌, none, true, codes, truthy, map, ◌∷◌, ◌||◌, [],
  false,
}

-- An element that `getElementById` finds.
pub record Input : Type 0 where
  pub id : Text
  pub disabled : Bool

-- `simulate` is the checkbox simulate_packet_loss, where the page has it, and `anomaly_boxes` are the
-- boxes of the anomalies by their `disabled`.
pub record FormPage : Type 0 where
  pub current_status : Text
  pub drawer_mode : Text
  pub simulate : Option Bool
  pub inputs : List Input
  pub anomaly_boxes : List Bool
  pub save_org_disabled : Bool
  pub save_org_shown : Bool
  pub save_general_disabled : Bool

unfoldable pub drawer_inputs : List Text
drawer_inputs =
    codes "org_name"
    ∷ codes "tenant_id"
    ∷ codes "app_name"
    ∷ codes "device_prefix"
    ∷ codes "device_count"
    ∷ codes "gateway_count"
    ∷ []

unfoldable pub settings_inputs : List Text
settings_inputs =
    codes "duration"
    ∷ codes "activation_time"
    ∷ codes "frequency"
    ∷ codes "bandwidth"
    ∷ codes "spreading_factor"
    ∷ codes "event_topic_template"
    ∷ codes "command_topic_template"
    ∷ codes "uplink_interval"
    ∷ codes "f_port"
    ∷ codes "payload"
    ∷ codes "packet_loss"
    ∷ codes "simulate_packet_loss"
    ∷ codes "latency_ms"
    ∷ codes "payload_script"
    ∷ codes "anomaly_probability"
    ∷ codes "anomaly_duration"
    ∷ []

unfoldable pub packet_loss_id : Text
packet_loss_id = codes "packet_loss"

-- `simChk ? !simChk.checked : true`
abbrev pub not_simulated : Option Bool → Bool
not_simulated none = true
not_simulated (some checked) = not checked

-- What the second loop makes of an element's `disabled`.
unfoldable pub settings_disabled : Bool → Option Bool → Text → Bool
settings_disabled is_sim_running simulate id =
    if text_eq id packet_loss_id then is_sim_running || not_simulated simulate else is_sim_running

-- The bodies of the two loops for one element.
unfoldable pub update_drawer_input : Bool → Input → Input
update_drawer_input is_read_only e = record e {
  disabled = if contains e.id drawer_inputs then is_read_only else e.disabled;
}

unfoldable pub update_settings_input : Bool → Option Bool → Input → Input
update_settings_input is_sim_running simulate e = record e {
  disabled =
      if contains e.id settings_inputs
      then settings_disabled is_sim_running simulate e.id
      else e.disabled;
}

unfoldable pub update_form_inputs_state : FormPage → FormPage
update_form_inputs_state page =
    let is_sim_running = is_running page.current_status in
    let is_view = text_eq page.drawer_mode (codes "view") in
    record page {
      inputs =
          map (update_settings_input is_sim_running page.simulate)
            (map (update_drawer_input (is_view || is_sim_running)) page.inputs);
      anomaly_boxes = map (λ (box : Bool). is_sim_running) page.anomaly_boxes;
      save_org_disabled = is_sim_running;
      save_org_shown = not is_view;
      save_general_disabled = is_sim_running;
    }

-- setStatusBadge, of which only the status matters here.
unfoldable pub show_status : Text → FormPage → FormPage
show_status status page = update_form_inputs_state (record page { current_status = status })

-- openDrawer sets the mode; openOrgDrawer then updates the inputs without waiting for loadOrgConfig.
unfoldable pub open_drawer : Text → FormPage → FormPage
open_drawer mode page = record page { drawer_mode = if truthy mode then mode else codes "edit" }

unfoldable pub open_org_form : Text → FormPage → FormPage
open_org_form mode page = update_form_inputs_state (open_drawer mode page)

-- `packetLossField.disabled = !simulatePacketLossField.checked`
unfoldable pub set_packet_loss : Bool → Input → Input
set_packet_loss checked e = record e {
  disabled = if text_eq e.id packet_loss_id then not checked else e.disabled;
}

abbrev pub check_simulate : Bool → Option Bool → FormPage → FormPage
check_simulate checked none page = page
check_simulate checked (some before) page = record page {
  simulate = some checked;
  inputs = map (set_packet_loss checked) page.inputs;
}

-- What an answer to loadOrgConfig and the listener of the checkbox do to the inputs: nothing where the
-- page has no such checkbox.
unfoldable pub simulate_checked : Bool → FormPage → FormPage
simulate_checked checked page = check_simulate checked page.simulate page

-- saveOrgConfig before and after the request of its save.
unfoldable pub begin_save : FormPage → FormPage
begin_save page = record page { save_org_disabled = true }

unfoldable pub end_save : FormPage → FormPage
end_save page = record page { save_org_disabled = false }

pub data Reached : FormPage → Type 0 where
  starts : (page : FormPage) → Reached (update_form_inputs_state page)
  polls : {page : FormPage} (status : Text) → Reached page → Reached (show_status status page)
  opens : {page : FormPage} (mode : Text) → Reached page → Reached (open_org_form mode page)
  creates : {page : FormPage} → Reached page → Reached (open_drawer (codes "edit") page)
  checks :
      {page : FormPage} (checked : Bool) → Reached page → Reached (simulate_checked checked page)
  saves : {page : FormPage} → Reached page → Reached (begin_save page)
  saved : {page : FormPage} → Reached page → Reached (end_save page)
