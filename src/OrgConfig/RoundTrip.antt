-- ===== src/OrgConfig/RoundTrip.antt =====
-- What is kept when a configuration is loaded into the fields and saved again.
use chirpstack_simulator.Prelude.{
  suc, zero, Text, Bool, true, false, Option, none, some, List, truthy, trim, filter_by, ◌≡◌, ◌<◌,
  ◌^◌, ◌⊎◌, ◌+◌, ◌≢◌, codes,
}
use chirpstack_simulator.Prelude.Int.{ℤ, pos, negsuc}
use chirpstack_simulator.Prelude.Decimals.{magnitude}
use chirpstack_simulator.OrgConfig.Boxes.{join, chosen_types, check_boxes}
use chirpstack_simulator.OrgConfig.{Floats, Config, chosen_types, check_boxes, codes}

-- A text, and an integer, that is shown as it is and not as the default.
abbrev pub Kept : Text → Type 0
Kept t = (truthy t ≡ true) × (trim t ≡ t)

abbrev pub IsShort : Option ℤ → Type 0
IsShort none = ⊥
IsShort (some z) = magnitude z < 10 ^ 21

abbrev pub Nonzero : Option ℤ → Type 0
Nonzero none = ⊥
Nonzero (some (pos zero)) = ⊥
Nonzero (some (pos (suc n))) = suc n < 10 ^ 21
Nonzero (some (negsuc n)) = n + 1 < 10 ^ 21

module _ (floats : Floats) where
  -- What printing and reading of numbers promise.
  pub record PrintsFloats : Type 0 where
    pub reads_back :
        (x : floats.F) → floats.falsy x ≡ false → floats.parse_float (floats.show_float x) ≡ x
    pub reads_zero : floats.falsy (floats.parse_float (floats.show_float floats.zero_float)) ≡ true

  abbrev pub IsNumber : Option floats.F → Type 0
  IsNumber none = ⊥
  IsNumber (some x) = (floats.falsy x ≡ false) ⊎ (x ≡ floats.zero_float)

  -- A configuration without a field for which the page shows a default, and whose anomaly types are
  -- some of those of the boxes.
  pub record IsComplete (types : List Text) (d : Config floats) : Type 0 where
    pub tenant_id : Kept d.tenant_id
    pub app_name : Kept d.app_name
    pub device_prefix : Kept d.device_prefix
    pub device_count : Nonzero d.device_count
    pub gateway_count : Nonzero d.gateway_count
    pub duration : Kept d.duration
    pub activation_time : Kept d.activation_time
    pub uplink_interval : Kept d.uplink_interval
    pub f_port : Nonzero d.f_port
    pub payload : Kept d.payload
    pub frequency : Nonzero d.frequency
    pub bandwidth : Nonzero d.bandwidth
    pub spreading_factor : Nonzero d.spreading_factor
    pub event_topic_template : Kept d.event_topic_template
    pub command_topic_template : Kept d.command_topic_template
    pub packet_loss : IsNumber d.packet_loss
    pub simulate_packet_loss : d.simulate_packet_loss ≢ none
    pub latency_ms : IsShort d.latency_ms
    pub anomaly_probability : IsNumber d.anomaly_probability
    pub anomaly_duration : Nonzero d.anomaly_duration
    pub keep : Text → Bool
    pub anomaly_types : d.anomaly_types ≡ join (filter_by keep types)
