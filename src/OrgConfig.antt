-- ===== src/OrgConfig.antt =====
-- internal/api/frontend/js/tabs/orgs.js: the configuration of an organization, as saveOrgConfig reads it
-- from the fields of the page and loadOrgConfig shows it there. The page has all these fields but those
-- of the two counts, which the source looks for and does not find.
pub mod Boxes
pub mod Types
pub mod Loading
pub mod Saving
pub mod RoundTrip
pub mod Stale
use chirpstack_simulator.Prelude.{
  Text, Bool, true, false, Option, none, some, List, [], ◌∷◌, ◌++◌, codes, text_eq, text_or, truthy,
  trim, not, ◌&&◌, if◌then◌else◌, find_by, map, filter_by, suc, zero,
}
use chirpstack_simulator.Prelude.Int.{ℤ, pos, negsuc}
use chirpstack_simulator.Prelude.Decimals.{parse_ℤ, show_ℤ}
use chirpstack_simulator.State.{Organization}
use chirpstack_simulator.Durations.{validate_duration, validate_uplink_interval}
use chirpstack_simulator.OrgConfig.Boxes.{Box, chosen_types, check_boxes, uncheck_boxes}

-- The numbers of JavaScript that are no integers: `falsy` is 0 and `NaN`.
pub record Floats : Type 1 where
  pub F : Type 0
  pub zero_float : F
  pub parse_float : Text → F
  pub show_float : F → Text
  pub falsy : F → Bool

-- The values of the fields. One of type number gives the empty text for what is no number.
pub record Fields : Type 0 where
  pub org_name : Text
  pub tenant_id : Text
  pub app_name : Text
  pub device_prefix : Text
  pub duration : Text
  pub activation_time : Text
  pub uplink_interval : Text
  pub f_port : Text
  pub payload : Text
  pub frequency : Text
  pub bandwidth : Text
  pub spreading_factor : Text
  pub event_topic_template : Text
  pub command_topic_template : Text
  pub packet_loss : Text
  pub packet_loss_disabled : Bool
  pub simulate_packet_loss : Bool
  pub latency_ms : Text
  pub payload_script : Text
  pub anomaly_probability : Text
  pub anomaly_duration : Text
  pub anomaly_boxes : List Box

-- `a || b` on integers, where `none` is `NaN` or a missing value.
unfoldable pub or_int : Option ℤ → ℤ → ℤ
or_int none d = d
or_int (some (pos zero)) d = d
or_int (some (pos (suc n))) d = pos (suc n)
or_int (some (negsuc n)) d = negsuc n

-- What an integer field shows for `n || d`.
unfoldable pub shown_int : Option ℤ → ℤ → Text
shown_int n d = show_ℤ (or_int n d)

pub data SaveEntry : Type 0 where
  bad_uplink_interval bad_duration bad_activation_time rename_failed saved save_failed : SaveEntry
  renamed : Text → SaveEntry

-- The three tests of saveOrgConfig, in their order; what is wrong first, if anything is.
unfoldable pub check_durations : Fields → Option SaveEntry
check_durations f =
    let d = trim f.duration in
    let a = trim f.activation_time in
    if not (validate_uplink_interval (trim f.uplink_interval))
    then some bad_uplink_interval
    else if truthy d && not (text_eq d (codes "0s")) && not (validate_duration d)
    then some bad_duration
    else if truthy a && not (validate_duration a)
    then some bad_activation_time
    else none

-- findOrg, and the test for which the name is sent.
unfoldable pub needs_rename : List Organization → Text → Text → Bool
needs_rename organizations org_id name =
    elim (find_by (λ (o : Organization). text_eq o.id org_id) organizations) [
      | none ↦ false
      | some org ↦ truthy name && not (text_eq org.name name)
    ]

-- `org.name = newOrgName` on the organization that findOrg finds.
unfoldable pub rename_first : Text → Text → List Organization → List Organization
rename_first org_id name [] = []
rename_first org_id name (o ∷ os) =
    let rest = rename_first org_id name os in
    if text_eq o.id org_id then record o { name = name } ∷ os else o ∷ rest

module _ (floats : Floats) where
  -- What the server keeps. Texts and integers that are missing are empty and `none`.
  pub record Config : Type 0 where
    pub tenant_id : Text
    pub app_name : Text
    pub device_prefix : Text
    pub device_count : Option ℤ
    pub gateway_count : Option ℤ
    pub duration : Text
    pub activation_time : Text
    pub uplink_interval : Text
    pub f_port : Option ℤ
    pub payload : Text
    pub frequency : Option ℤ
    pub bandwidth : Option ℤ
    pub spreading_factor : Option ℤ
    pub event_topic_template : Text
    pub command_topic_template : Text
    pub packet_loss : Option floats.F
    pub simulate_packet_loss : Option Bool
    pub latency_ms : Option ℤ
    pub payload_script : Text
    pub anomaly_probability : Option floats.F
    pub anomaly_duration : Option ℤ
    pub anomaly_types : Text

  unfoldable pub or_zero : floats.F → floats.F
  or_zero x = if floats.falsy x then floats.zero_float else x

  abbrev counts_of : Option Config → Option ℤ × Option ℤ
  counts_of none = (none, none)
  counts_of (some c) = (c.device_count, c.gateway_count)

  -- The counts come from the active configuration, by `(… && ….device_count) || 5`.
  -- The `data` of saveOrgConfig, by the configuration that is active.
  unfoldable pub config_of : Option Config → Fields → Config
  config_of active f = record {
    tenant_id = trim f.tenant_id;
    app_name = trim f.app_name;
    device_prefix = trim f.device_prefix;
    device_count = some (or_int (counts_of active).0 (pos 5));
    gateway_count = some (or_int (counts_of active).1 (pos 2));
    duration = trim f.duration;
    activation_time = trim f.activation_time;
    uplink_interval = trim f.uplink_interval;
    f_port = parse_ℤ f.f_port;
    payload = trim f.payload;
    frequency = parse_ℤ f.frequency;
    bandwidth = parse_ℤ f.bandwidth;
    spreading_factor = parse_ℤ f.spreading_factor;
    event_topic_template = trim f.event_topic_template;
    command_topic_template = trim f.command_topic_template;
    packet_loss = some (or_zero (floats.parse_float f.packet_loss));
    simulate_packet_loss = some f.simulate_packet_loss;
    latency_ms = some (or_int (parse_ℤ f.latency_ms) (pos 0));
    payload_script = f.payload_script;
    anomaly_probability = some (or_zero (floats.parse_float f.anomaly_probability));
    anomaly_duration = some (or_int (parse_ℤ f.anomaly_duration) (pos 5));
    anomaly_types = chosen_types f.anomaly_boxes;
  }

  pub data ConfigRequest : Type 0 where
    put_organization : Text → Text → ConfigRequest
    post_config : Text → Config → ConfigRequest

  -- The page, with its organizations, the loads that the server has not answered (by the id and the name
  -- of the organization), and the log, newest first.
  pub record Page : Type 0 where
    pub organizations : List Organization
    pub active_org_id : Text
    pub active_org_config : Option Config
    pub fields : Fields
    pub drawer_open : Bool
    pub loading : List (Text × Text)
    pub log : List SaveEntry

  abbrev pub log_entry : SaveEntry → Page → Page
  log_entry e p = record p { log = e ∷ p.log }

  -- saveOrgConfig from its POST on. `accepts` is whether the server takes the configuration.
  unfoldable pub post : Text → Bool → Page → Page × List ConfigRequest
  post org_id accepts p =
      let c = config_of p.active_org_config p.fields in
      let stored = record p { active_org_config = some c; drawer_open = false } in
      (
        if accepts then log_entry saved stored else log_entry save_failed p,
        post_config org_id c ∷ [],
      )

  -- saveOrgConfig from its tests on, by what is wrong with the durations, and by whether the name is to
  -- be changed. `accepts_name` and `accepts` are the server's answers.
  unfoldable pub save_checked :
      Text → Bool → Bool → Page → Option SaveEntry → Bool → Page × List ConfigRequest
  save_checked org_id accepts_name accepts p (some e) needs = (log_entry e p, [])
  save_checked org_id accepts_name accepts p none false = post org_id accepts p
  save_checked org_id accepts_name accepts p none true =
      let name = trim p.fields.org_name in
      let put = put_organization org_id name in
      let renamed_page = record p { organizations = rename_first org_id name p.organizations } in
      let posted = post org_id accepts (log_entry (renamed name) renamed_page) in
      if accepts_name then (posted.0, put ∷ posted.1) else (log_entry rename_failed p, put ∷ [])

  -- saveOrgConfig, where nothing else changes the page while its requests run.
  unfoldable pub save_org_config : Text → Bool → Bool → Page → Page × List ConfigRequest
  save_org_config org_id accepts_name accepts p =
      if not (truthy org_id)
      then (p, [])
      else save_checked org_id accepts_name accepts p (check_durations p.fields)
          (needs_rename p.organizations org_id (trim p.fields.org_name))
