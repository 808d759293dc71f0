-- ===== src/OrgConfig/Loading.antt =====
-- internal/api/frontend/js/tabs/orgs.js: loadOrgConfig and openOrgDrawer, which show the configuration of
-- an organization.
use chirpstack_simulator.Prelude.{
  Text, Bool, true, false, Option, none, some, List, [], ◌∷◌, ◌++◌, codes, text_eq, text_or, truthy,
  trim, not, if◌then◌else◌, find_by,
}
use chirpstack_simulator.Prelude.Int.{ℤ, pos}
use chirpstack_simulator.Prelude.Decimals.{parse_ℤ, show_ℤ}
use chirpstack_simulator.State.{Organization}
use chirpstack_simulator.OrgConfig.Boxes.{check_boxes, uncheck_boxes}
use chirpstack_simulator.OrgConfig.{Floats, Fields, Config, Page, or_int, or_zero, shown_int}

-- What the browser keeps for the page: the values under "setting-…" in its local storage, and the
-- values that the fields have in the document.
pub record Local : Type 0 where
  pub storage : Text → Option Text
  pub default_value : Text → Text
  pub default_checked : Bool

unfoldable pub local_value : Local → Text → Text
local_value local id = elim (local.storage (codes "setting-" ++ id)) [
  | none ↦ local.default_value id
  | some v ↦ v
]

unfoldable pub local_checked : Local → Text → Bool
local_checked local id = elim (local.storage (codes "setting-" ++ id)) [
  | none ↦ local.default_checked
  | some v ↦ text_eq v (codes "true")
]

module _ (floats : Floats) where
  -- The fields for a configuration that the server has.
  unfoldable pub shown_fields : Text → Text → Config floats → Fields → Fields
  shown_fields org_id org_name d f =
      let simulate : Bool = elim d.simulate_packet_loss [ none ↦ false | some b ↦ b ] in
      record {
        org_name = f.org_name;
        tenant_id = text_or d.tenant_id org_id;
        app_name = text_or d.app_name org_name;
        device_prefix = text_or d.device_prefix (codes "sim-dev");
        duration = text_or d.duration (codes "5m");
        activation_time = text_or d.activation_time (codes "1m");
        uplink_interval = text_or d.uplink_interval (codes "5m");
        f_port = shown_int d.f_port (pos 10);
        payload = text_or d.payload (codes "010203");
        frequency = shown_int d.frequency (pos 868_100_000);
        bandwidth = shown_int d.bandwidth (pos 125_000);
        spreading_factor = shown_int d.spreading_factor (pos 7);
        event_topic_template =
            text_or d.event_topic_template
              (codes "eu868/gateway/{{ .GatewayID }}/event/{{ .Event }}");
        command_topic_template =
            text_or d.command_topic_template
              (codes "eu868/gateway/{{ .GatewayID }}/command/{{ .Command }}");
        packet_loss = elim d.packet_loss [ none ↦ codes "0.0" | some x ↦ floats.show_float x ];
        packet_loss_disabled = not simulate;
        simulate_packet_loss = simulate;
        latency_ms = elim d.latency_ms [ none ↦ codes "0" | some z ↦ show_ℤ z ];
        payload_script = d.payload_script;
        anomaly_probability = elim d.anomaly_probability [
          | none ↦ codes "0.0"
          | some x ↦ floats.show_float x
        ];
        anomaly_duration = elim d.anomaly_duration [ none ↦ codes "5" | some z ↦ show_ℤ z ];
        anomaly_boxes = check_boxes d.anomaly_types f.anomaly_boxes;
      }

  -- The fields where the server has none.
  unfoldable pub local_fields : Local → Text → Text → Fields → Fields
  local_fields local org_id org_name f =
      let simulate = local_checked local (codes "simulate_packet_loss") in
      record {
        org_name = f.org_name;
        tenant_id = org_id;
        app_name = org_name;
        device_prefix = codes "sim-dev";
        duration = local_value local (codes "duration");
        activation_time = local_value local (codes "activation_time");
        uplink_interval = local_value local (codes "uplink_interval");
        f_port = local_value local (codes "f_port");
        payload = local_value local (codes "payload");
        frequency = local_value local (codes "frequency");
        bandwidth = local_value local (codes "bandwidth");
        spreading_factor = local_value local (codes "spreading_factor");
        event_topic_template = local_value local (codes "event_topic_template");
        command_topic_template = local_value local (codes "command_topic_template");
        packet_loss = local_value local (codes "packet_loss");
        packet_loss_disabled = not simulate;
        simulate_packet_loss = simulate;
        latency_ms = local_value local (codes "latency_ms");
        payload_script = local_value local (codes "payload_script");
        anomaly_probability = local_value local (codes "anomaly_probability");
        anomaly_duration = local_value local (codes "anomaly_duration");
        anomaly_boxes = uncheck_boxes f.anomaly_boxes;
      }

  abbrev int_or_zero : Text → Option ℤ
  int_or_zero s = some (or_int (parse_ℤ s) (pos 0))

  -- `fallbackData`, with the values of the fields above.
  unfoldable pub local_config : Text → Text → Fields → Config floats
  local_config org_id org_name f = record {
    tenant_id = org_id;
    app_name = org_name;
    device_prefix = codes "sim-dev";
    device_count = some (pos 5);
    gateway_count = some (pos 2);
    duration = trim f.duration;
    activation_time = trim f.activation_time;
    uplink_interval = trim f.uplink_interval;
    f_port = int_or_zero (trim f.f_port);
    payload = trim f.payload;
    frequency = int_or_zero (trim f.frequency);
    bandwidth = int_or_zero (trim f.bandwidth);
    spreading_factor = int_or_zero (trim f.spreading_factor);
    event_topic_template = trim f.event_topic_template;
    command_topic_template = trim f.command_topic_template;
    packet_loss = some (or_zero floats (floats.parse_float (trim f.packet_loss)));
    simulate_packet_loss = some f.simulate_packet_loss;
    latency_ms = int_or_zero (trim f.latency_ms);
    payload_script = trim f.payload_script;
    anomaly_probability = some (or_zero floats (floats.parse_float (trim f.anomaly_probability)));
    anomaly_duration = int_or_zero (trim f.anomaly_duration);
    anomaly_types = [];
  }

  -- loadOrgConfig up to its `await`.
  unfoldable pub load_org_config : Text → Text → Page floats → Page floats
  load_org_config org_id org_name p =
      if not (truthy org_id) then p else record p { loading = (org_id, org_name) ∷ p.loading }

  -- loadOrgConfig from the answer on, where `others` still wait: `none` is an answer that is not ok, or
  -- without data.
  unfoldable pub load_answered :
      Local → Option (Config floats) → Text → Text → List (Text × Text) → Page floats → Page floats
  load_answered local answer org_id org_name others p =
      let mine = local_fields local org_id org_name p.fields in
      let without = record p {
        fields = mine;
        active_org_config = some (local_config org_id org_name mine);
        loading = others;
      } in
      elim answer [
        | none ↦ without
        | some d ↦
            if truthy d.tenant_id
            then record p {
              fields = shown_fields org_id org_name d p.fields;
              active_org_config = some d;
              loading = others;
            }
            else without
      ]

  -- openOrgDrawer from its `findOrg` on.
  unfoldable pub open_found : Text → Option Organization → Page floats → Page floats
  open_found org_id none p = p
  open_found org_id (some org) p = load_org_config org_id org.name (record p {
    active_org_id = org_id;
    drawer_open = true;
    fields = record p.fields { org_name = org.name };
  })

  unfoldable pub open_org_drawer : Text → Page floats → Page floats
  open_org_drawer org_id p =
      open_found org_id (find_by (λ (o : Organization). text_eq o.id org_id) p.organizations) p
