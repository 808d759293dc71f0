-- ===== src/Telemetry/Codec.antt =====
-- internal/api/frontend/js/tabs/dynamic-telemetry.js: the script of an organization, loaded into the
-- editor, changed and saved. The texts of the built-in scripts are an argument, and so is what the
-- server's configuration holds beside the tenant and the script. The page has all the elements.
pub mod Owner
pub mod Misplaced
use chirpstack_simulator.Prelude.{
  Text, codes, Bool, true, false, ◌||◌, if◌then◌else◌, Option, none, some, List, [], ◌∷◌, ◌++◌,
  truthy, trim, includes,
}

module _ (Rest : Type 0) where
  pub record Config : Type 0 where
    pub tenant_id : Text
    pub payload_script : Text
    pub rest : Rest

  -- `selected` is the value of the select of organizations. `can_edit` is whether the select of
  -- templates, the editor and the test button are enabled. `previewed`: the preview shows a test.
  pub record Codec : Type 0 where
    pub options : List Text
    pub selected : Text
    pub template : Text
    pub script : Text
    pub can_edit : Bool
    pub can_save : Bool
    pub active_org_config : Option Config
    pub previewed : Bool

  -- A request to save: the path and the body.
  pub record Post : Type 0 where
    pub path : Text
    pub body : Config

  -- The first option is the empty one, and a select that is filled again stands on its first option.
  unfoldable pub populate_telemetry_orgs_select : List Text → Codec → Codec
  populate_telemetry_orgs_select ids c = record c { options = [] ∷ ids; selected = [] }

  -- The tests of detectAndSelectTemplate, in their order.
  unfoldable pub template_of : Text → Text
  template_of script =
      if includes (codes "Sıcaklık Sensörü") script
        || includes (codes "diurnal") script
        || includes (codes "baseTemp") script
      then codes "temperature"
      else if includes (codes "Nem Sensörü") script
          || includes (codes "random walk") script
          || includes (codes "humidity") script
      then codes "humidity"
      else if includes (codes "Su Sayacı") script
          || includes (codes "Water Meter") script
          || includes (codes "baseMeter") script
      then codes "meter"
      else if includes (codes "Pil Seviyesi") script
          || includes (codes "battery") script
          || includes (codes "decayRate") script
      then codes "battery"
      else codes "custom"

  unfoldable pub detect_and_select_template : Text → Codec → Codec
  detect_and_select_template script c = record c {
    template = if truthy script then template_of script else codes "custom";
  }

  -- loadOrgTelemetryConfig up to its `await`: `none` where it asks nothing.
  unfoldable pub load_org_telemetry_config : Codec → Codec × Option Text
  load_org_telemetry_config c =
      if truthy c.selected then (c, some (codes "/api/org-configs/" ++ c.selected)) else (
        record c {
          can_edit = false;
          can_save = false;
          script = [];
          active_org_config = none;
          previewed = false;
        },
        none,
      )

  -- From the answer on: `none` is an answer that is not ok or has no data.
  unfoldable pub load_answered : Option Config → Codec → Codec
  load_answered none c = c
  load_answered (some config) c = detect_and_select_template config.payload_script (record c {
    active_org_config = some config;
    can_edit = true;
    can_save = true;
    script = config.payload_script;
  })

  -- The user chooses an organization.
  unfoldable pub select_org : Text → Codec → Codec × Option Text
  select_org id c = load_org_telemetry_config (record c { selected = id })

  unfoldable pub put_template : Option Text → Codec → Codec
  put_template none c = c
  put_template (some script) c = if truthy script then record c { script = script } else c

  unfoldable pub handle_template_select_change : (Text → Option Text) → Text → Codec → Codec
  handle_template_select_change templates template c =
      put_template (templates template) (record c { template = template })

  unfoldable pub edit_script : Text → Codec → Codec
  edit_script script c = record c { script = script }

  -- saveTelemetryScript up to its `await`, and from the answer on.
  unfoldable pub save_with : Option Config → Codec → Codec × Option Post
  save_with none c = (c, none)
  save_with (some config) c = (
    record c { can_save = false },
    some (record {
      path = codes "/api/org-configs/" ++ c.selected;
      body = record config { payload_script = trim c.script };
    }),
  )

  unfoldable pub save_telemetry_script : Codec → Codec × Option Post
  save_telemetry_script c = save_with c.active_org_config c

  -- `none` is the TypeError of an assignment to a field of `null`.
  unfoldable pub keep_script : Option Config → Text → Codec → Option Codec
  keep_script none script c = none
  keep_script (some config) script c =
      some (record c { active_org_config = some (record config { payload_script = script }) })

  unfoldable pub save_answered : Bool → Text → Codec → Option Codec
  save_answered true script c =
      keep_script c.active_org_config script (record c { can_save = true })
  save_answered false script c = some (record c { can_save = true })
