-- ===== src/Wizard.antt =====
-- internal/api/frontend/js/wizards/bootstrap-wizard.js: the set-up wizard as a state machine. The
-- server is not modelled: its answer to a set-up request is an event. What the browser lets a user do
-- is the condition of an event: an input can be edited while its pane is the one on the screen, and a
-- button can be clicked while it is there and not disabled.
pub mod Events
pub mod Edits
pub mod Reach
pub mod Pending
use chirpstack_simulator.Prelude.{
  trim, Text, true, Bool, ℕ, [], if◌then◌else◌, false, Option, codes, ltb, ◌∷◌, ◌==◌, List, not,
  truthy, parse_int, some, ◌-◌, leb, ◌&&◌, ◌+◌, ◌%◌, none, zero, text_eq,
}
use Prim.Native.String.{[]}
use Prim.Native.Nat.{ℕ, suc}

-- The texts of the inputs.
pub record Inputs : Type 0 where
  pub org_name : Text
  pub app_prefix : Text
  pub app_count : Text
  pub dp_prefix : Text
  pub dp_count : Text
  pub dev_prefix : Text
  pub dev_count : Text
  pub scenario : Text

-- A row of the summary: the number of a device, and the selects for its profile and its interval.
pub record Slot : Type 0 where
  pub device_index : ℕ
  pub profile_index : ℕ
  pub interval : Text

-- The request body of `/api/bootstrap`. Counts are `none` where `parseInt` gives `NaN`.
pub record Payload : Type 0 where
  pub org_name : Text
  pub app_prefix : Text
  pub app_count : Option ℕ
  pub dp_prefix : Text
  pub dp_count : Option ℕ
  pub dev_prefix : Text
  pub dev_count : Option ℕ
  pub devices_config : List Slot
  pub scenario : Text

pub record Wizard : Type 0 where
  pub current_step : ℕ
  pub inputs : Inputs
  pub slots : List Slot
  pub next_disabled : Bool
  pub visible : Bool
  -- The requests that the server has not answered.
  pub pending : List Payload

-- `parseInt(value || "0", 10)` of a number input: a negative number reads as `none` here, which every
-- test of the wizard treats like `NaN`.
unfoldable pub count_of : Text → Option ℕ
count_of value = parse_int value

-- `n || 0`
pub count_or_zero : Option ℕ → ℕ
count_or_zero none = 0
count_or_zero (some n) = n

-- `!isNaN(n) && n >= 1 && n <= most`
unfoldable pub in_range : ℕ → Option ℕ → Bool
in_range most none = false
in_range most (some n) = leb 1 n && leb n most

-- The rows of the summary, `count` of them from `s_idx` on. The profile that is selected is the one
-- whose number less 1 is `(sIdx - 1) % dpCount`; a select with no option has no number, written 0.
pub slot_rows : ℕ → ℕ → ℕ → List Slot
slot_rows dp_count s_idx zero = []
slot_rows dp_count s_idx (suc count) =
    record {
      device_index = s_idx;
      profile_index = if ltb 0 dp_count then (s_idx - 1) % dp_count + 1 else 0;
      interval = codes "2m";
    }
    ∷ slot_rows dp_count (s_idx + 1) count

unfoldable pub render_bootstrap_step : Wizard → Wizard
render_bootstrap_step wizard = record {
  current_step = wizard.current_step;
  inputs = wizard.inputs;
  slots =
      if wizard.current_step == 5
      then slot_rows (count_or_zero (count_of wizard.inputs.dp_count)) 1
          (count_or_zero (count_of wizard.inputs.dev_count))
      else wizard.slots;
  next_disabled = false;
  visible = wizard.visible;
  pending = wizard.pending;
}

pub go_to_step : ℕ → Wizard → Wizard
go_to_step step wizard = render_bootstrap_step (record {
  current_step = step;
  inputs = wizard.inputs;
  slots = wizard.slots;
  next_disabled = wizard.next_disabled;
  visible = wizard.visible;
  pending = wizard.pending;
})

abbrev pub default_inputs : Inputs
default_inputs = record {
  org_name = [];
  app_prefix = codes "ag";
  app_count = codes "5";
  dp_prefix = codes "profile";
  dp_count = codes "5";
  dev_prefix = codes "device";
  dev_count = codes "5";
  scenario = codes "default";
}

unfoldable pub show_bootstrap_wizard : Wizard → Wizard
show_bootstrap_wizard wizard = render_bootstrap_step (record {
  current_step = 1;
  inputs = default_inputs;
  slots = wizard.slots;
  next_disabled = false;
  visible = true;
  pending = wizard.pending;
})

pub hide_bootstrap_wizard : Wizard → Wizard
hide_bootstrap_wizard wizard = record {
  current_step = wizard.current_step;
  inputs = wizard.inputs;
  slots = wizard.slots;
  next_disabled = wizard.next_disabled;
  visible = false;
  pending = wizard.pending;
}

pub prev_bootstrap_step : Wizard → Wizard
unfolding go_to_step
prev_bootstrap_step wizard =
    if ltb 1 wizard.current_step then go_to_step (wizard.current_step - 1) wizard else wizard

pub payload_of : Wizard → Payload
payload_of wizard = record {
  org_name = trim wizard.inputs.org_name;
  app_prefix = trim wizard.inputs.app_prefix;
  app_count = count_of wizard.inputs.app_count;
  dp_prefix = trim wizard.inputs.dp_prefix;
  dp_count = count_of wizard.inputs.dp_count;
  dev_prefix = trim wizard.inputs.dev_prefix;
  dev_count = count_of wizard.inputs.dev_count;
  devices_config = wizard.slots;
  scenario = wizard.inputs.scenario;
}

-- submitBootstrap up to its `await fetch`.
pub submit_bootstrap : Wizard → Wizard
submit_bootstrap wizard = record {
  current_step = wizard.current_step;
  inputs = wizard.inputs;
  slots = wizard.slots;
  next_disabled = true;
  visible = wizard.visible;
  pending = payload_of wizard ∷ wizard.pending;
}

-- The test of a pane, for the steps 1 to 4.
unfoldable pub step_valid : ℕ → Inputs → Bool
step_valid step inputs =
    if step == 1
    then truthy (trim inputs.org_name)
    else if step == 2
    then truthy (trim inputs.app_prefix) && in_range 50 (count_of inputs.app_count)
    else if step == 3
    then truthy (trim inputs.dp_prefix) && in_range 50 (count_of inputs.dp_count)
    else if step == 4
    then truthy (trim inputs.dev_prefix) && in_range 100 (count_of inputs.dev_count)
    else true

pub next_bootstrap_step : Wizard → Wizard
unfolding go_to_step
next_bootstrap_step wizard =
    if wizard.current_step == 6
    then hide_bootstrap_wizard wizard
    else if not (step_valid wizard.current_step wizard.inputs)
    then wizard
    else if wizard.current_step == 5
    then submit_bootstrap wizard
    else go_to_step (wizard.current_step + 1) wizard

-- submitBootstrap from the answer to the request on: `true` is an answer that is ok.
pub bootstrap_answered : Bool → List Payload → Wizard → Wizard
unfolding go_to_step
bootstrap_answered ok others wizard =
    let answered : Wizard = record {
      current_step = wizard.current_step;
      inputs = wizard.inputs;
      slots = wizard.slots;
      next_disabled = false;
      visible = wizard.visible;
      pending = others;
    } in
    if ok then go_to_step 6 answered else answered

-- What the user types into the inputs of a pane.
unfoldable pub edit_org : Text → Wizard → Wizard
edit_org org wizard = record wizard { inputs = record wizard.inputs { org_name = org } }

-- The listener of the select of scenarios, which fills the name of the organization.
unfoldable pub choose_scenario : Text → Wizard → Wizard
choose_scenario scenario wizard = record wizard {
  inputs = record wizard.inputs {
    scenario = scenario;
    org_name = if text_eq scenario (codes "batman_oil") then codes "Raman-Petrol" else [];
  };
}

pub edit_app : Text → Text → Wizard → Wizard
edit_app prefix count wizard = record wizard {
  inputs = record wizard.inputs { app_prefix = prefix; app_count = count };
}

pub edit_dp : Text → Text → Wizard → Wizard
edit_dp prefix count wizard = record wizard {
  inputs = record wizard.inputs { dp_prefix = prefix; dp_count = count };
}

pub edit_dev : Text → Text → Wizard → Wizard
edit_dev prefix count wizard = record wizard {
  inputs = record wizard.inputs { dev_prefix = prefix; dev_count = count };
}
