-- ===== src/Settings.antt =====
-- internal/api/frontend/js/tabs/settings.js: the fields of the general settings, which the page keeps in
-- the local storage while they are typed, shows when it is loaded, and which loadOrgConfig of
-- tabs/orgs.js reads (OrgConfig.Loading). The page has all the fields.
pub mod Stored
use chirpstack_simulator.OrgConfig.Boxes.{contains}
use chirpstack_simulator.OrgConfig.Loading.{Local, local_value, local_checked}
use chirpstack_simulator.Prelude.{
  Text, Bool, List, codes, ◌∷◌, if◌then◌else◌, ◌&&◌, ◌++◌, [], not, text_eq, some, trim,
}

unfoldable pub general_field_ids : List Text
general_field_ids =
    codes "duration"
    ∷ codes "activation_time"
    ∷ codes "frequency"
    ∷ codes "bandwidth"
    ∷ codes "spreading_factor"
    ∷ codes "event_topic_template"
    ∷ codes "command_topic_template"
    ∷ codes "uplink_interval"
    ∷ codes "f_port"
    ∷ codes "payload"
    ∷ codes "packet_loss"
    ∷ codes "simulate_packet_loss"
    ∷ codes "latency_ms"
    ∷ codes "payload_script"
    ∷ []

abbrev pub check_box : Text
check_box = codes "simulate_packet_loss"

-- The fields whose text is stored as it is typed.
unfoldable pub is_stored : Text → Bool
is_stored id = contains id general_field_ids && not (text_eq id check_box)

unfoldable pub set_item : Text → Text → Local → Local
set_item key value local = record local {
  storage = λ name. if text_eq name key then some value else local.storage name;
}

unfoldable pub on_input : Text → Text → Local → Local
on_input id value local =
    if is_stored id then set_item (codes "setting-" ++ id) (trim value) local else local

unfoldable pub on_check : Bool → Local → Local
on_check is_checked local =
    set_item (codes "setting-" ++ check_box) (if is_checked then codes "true" else codes "false")
      local

-- What the user does: types a text into a field, or sets the check box.
pub data Entry : Type 0 where
  types : Text → Text → Entry
  checks : Bool → Entry

unfoldable pub enter : Entry → Local → Local
enter (types id value) local = on_input id value local
enter (checks is_checked) local = on_check is_checked local

unfoldable pub enter_all : List Entry → Local → Local
enter_all [] local = local
enter_all (e ∷ es) local = enter_all es (enter e local)

-- What the page shows when it is loaded: in a field, and in the check box.
unfoldable pub startup_value : Local → Text → Text
startup_value local id = if is_stored id then local_value local id else local.default_value id

unfoldable pub startup_checked : Local → Bool
startup_checked local = local_checked local check_box
