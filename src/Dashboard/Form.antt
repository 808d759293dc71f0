-- ===== src/Dashboard/Form.antt =====
-- internal/api/frontend/js/tabs/dashboard.js: collectConfig, which reads the fields of the page into
-- the configuration of a start. `parse_float` is the browser's, on texts that are not blank.
pub mod Blanks
pub mod Entries
use chirpstack_simulator.Prelude.{
  Text, codes, trim, truthy, Option, none, some, List, [], ◌∷◌, text_eq, if◌then◌else◌, find_by,
}
use chirpstack_simulator.Prelude.Int.{ℤ}
use chirpstack_simulator.Prelude.Decimals.{parse_ℤ}

pub data Kind : Type 0 where
  string int float : Kind

-- The id of the element and the key of the configuration are one text in every row.
pub record FormField : Type 0 where
  pub key : Text
  pub kind : Kind

unfoldable pub form_fields : List FormField
form_fields =
    record { key = codes "tenant_id"; kind = string }
    ∷ record { key = codes "app_name"; kind = string }
    ∷ record { key = codes "device_prefix"; kind = string }
    ∷ record { key = codes "duration"; kind = string }
    ∷ record { key = codes "activation_time"; kind = string }
    ∷ record { key = codes "device_count"; kind = int }
    ∷ record { key = codes "gateway_count"; kind = int }
    ∷ record { key = codes "uplink_interval"; kind = string }
    ∷ record { key = codes "f_port"; kind = int }
    ∷ record { key = codes "payload"; kind = string }
    ∷ record { key = codes "frequency"; kind = int }
    ∷ record { key = codes "bandwidth"; kind = int }
    ∷ record { key = codes "spreading_factor"; kind = int }
    ∷ record { key = codes "event_topic_template"; kind = string }
    ∷ record { key = codes "command_topic_template"; kind = string }
    ∷ record { key = codes "packet_loss"; kind = float }
    ∷ record { key = codes "latency_ms"; kind = int }
    ∷ record { key = codes "payload_script"; kind = string }
    ∷ []

module _ {Float : Type 0} (parse_float : Text → Float) where
  -- A number is `none` where `parseInt` gives `NaN`.
  pub data Value : Type 0 where
    text : Text → Value
    number : Option ℤ → Value
    floating : Float → Value

  pub record Setting : Type 0 where
    pub key : Text
    pub value : Value

  unfoldable pub read : Kind → Text → Value
  read string val = text val
  read int val = number (parse_ℤ val)
  read float val = floating (parse_float val)

  -- What a field puts into the configuration; `none` is an element that the page does not have.
  unfoldable pub read_field : Option Text → Kind → Option Value
  read_field none kind = none
  read_field (some content) kind =
      if truthy (trim content) then some (read kind (trim content)) else none

  unfoldable pub put_setting : Text → Option Value → List Setting → List Setting
  put_setting key none cfg = cfg
  put_setting key (some value) cfg = record { key = key; value = value } ∷ cfg

  unfoldable pub collect_from : (Text → Option Text) → List FormField → List Setting
  collect_from element [] = []
  collect_from element (f ∷ fields) =
      put_setting f.key (read_field (element f.key) f.kind) (collect_from element fields)

  unfoldable pub collect_config : (Text → Option Text) → List Setting
  collect_config element = collect_from element form_fields

  -- `cfg[key]`
  unfoldable pub setting : Text → List Setting → Option Value
  setting key [] = none
  setting key (s ∷ cfg) = if text_eq s.key key then some s.value else setting key cfg
