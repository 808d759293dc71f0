-- ===== src/Tests/Configs.antt =====
-- The theorems on the configuration of an organization at concrete values.
use chirpstack_simulator.Prelude.{
  ◌≡◌, ◌⊎◌, true, false, codes, some, none, [], ◌∷◌, refl, Text, List, Bool, if◌then◌else◌, text_eq,
  not,
}
use chirpstack_simulator.Prelude.Int.{pos}
use chirpstack_simulator.State.{Organization}
use chirpstack_simulator.Durations.{
  validate_uplink_interval, validate_duration, match_duration, match_groups, split_digits, unit_of,
  interval_ok,
}
use chirpstack_simulator.OrgConfig.Boxes.{Box}
use chirpstack_simulator.OrgConfig.{
  Floats, Fields, Config, Page, config_of, post, save_org_config, save_checked, check_durations,
  needs_rename, rename_first,
}
use chirpstack_simulator.OrgConfig.Loading.{Local}
use chirpstack_simulator.OrgConfig.Saving.{DurationOk, ActivationOk, posted, save_org_config-posted}

-- Numbers that are 0 or 1.
abbrev bits : Floats
bits = record {
  F = Bool;
  zero_float = false;
  parse_float = λ t. text_eq t (codes "1");
  show_float = λ b. if b then codes "1" else codes "0";
  falsy = not;
}

abbrev boxes : List Box
boxes =
    record { value = codes "spike"; checked = false }
    ∷ record { value = codes "drift"; checked = true }
    ∷ []

abbrev kept_config : Text → Config bits
kept_config tenant = record {
  tenant_id = tenant;
  app_name = codes "app";
  device_prefix = codes "dev";
  device_count = some (pos 3);
  gateway_count = some (pos 1);
  duration = codes "5m";
  activation_time = codes "1m";
  uplink_interval = codes "30s";
  f_port = some (pos 10);
  payload = codes "01";
  frequency = some (pos 868_100_000);
  bandwidth = some (pos 125_000);
  spreading_factor = some (pos 7);
  event_topic_template = codes "e";
  command_topic_template = codes "c";
  packet_loss = some true;
  simulate_packet_loss = some true;
  latency_ms = some (pos 0);
  payload_script = [];
  anomaly_probability = some false;
  anomaly_duration = some (pos 5);
  anomaly_types = codes "spike";
}

abbrev local : Local
local = record { storage = λ k. none; default_value = λ k. []; default_checked = false }

abbrev some_org : Text → Organization
some_org id = record {
  id = id;
  name = codes "acme";
  created_at = [];
  created_at_camel = [];
  created = [];
}

abbrev fields : Fields
fields = record {
  org_name = codes "acme two";
  tenant_id = codes "o1";
  app_name = codes "app";
  device_prefix = codes "dev";
  duration = codes "0s";
  activation_time = codes "1m";
  uplink_interval = codes "30s";
  f_port = codes "10";
  payload = codes "01";
  frequency = codes "868100000";
  bandwidth = codes "125000";
  spreading_factor = codes "7";
  event_topic_template = codes "e";
  command_topic_template = codes "c";
  packet_loss = codes "1";
  packet_loss_disabled = false;
  simulate_packet_loss = true;
  latency_ms = [];
  payload_script = [];
  anomaly_probability = codes "0";
  anomaly_duration = codes "5";
  anomaly_boxes = boxes;
}

abbrev page : Page bits
page = record {
  organizations = some_org (codes "o1") ∷ some_org (codes "o2") ∷ [];
  active_org_id = codes "o1";
  active_org_config = none;
  fields = fields;
  drawer_open = true;
  loading = [];
  log = [];
}

sent :
    posted bits (save_org_config bits (codes "o1") true true page).1
    ≡ some (config_of bits none fields)
unfolding save_org_config save_checked check_durations needs_rename rename_first post
    validate_uplink_interval validate_duration match_duration match_groups split_digits unit_of
    interval_ok
sent = refl

save_org_config-posted_example :
    (config_of bits none fields ≡ config_of bits none fields)
    × (validate_uplink_interval (config_of bits none fields).uplink_interval ≡ true)
    × DurationOk (config_of bits none fields).duration
    × ActivationOk (config_of bits none fields).activation_time
    × ((needs_rename page.organizations (codes "o1") (codes "acme two") ≡ false)
        ⊎ ◌≡◌ {A = Bool} true true)
    × ((save_org_config bits (codes "o1") true true page).0.active_org_config
        ≡ some (config_of bits none fields))
save_org_config-posted_example =
    save_org_config-posted bits (codes "o1") true true page (config_of bits none fields) sent
