-- ===== src/Tests/Data.antt =====
-- A page with two organizations, seven networks, two profiles, two devices and two gateways.
use chirpstack_simulator.Prelude.{text_compare, List, Text, ℕ, codes, none, ◌∷◌, true, [], false}
use chirpstack_simulator.Table.Defs.{asc, View}
use chirpstack_simulator.State.{
  Engine, State, Organization, Device, Application, Gateway, DeviceProfile, DeviceStatus,
}

-- An engine on lower-case texts, with dates that it does not read.
abbrev pub js : Engine
js = record {
  to_lower = λ s. s;
  to_upper = λ s. s;
  locale_compare = text_compare;
  date_parse = λ s. none;
}

abbrev pub fresh : {A : Type 0} → Text → View A
fresh key = record {
  filtered = [];
  sort = record { key = key; dir = asc };
  page = 1;
  page_size = 5;
  search_query = [];
  tenant_filter = [];
}

abbrev pub network : Text → Text → Application
network id tenant = record {
  id = id;
  name = id;
  tenant_id = tenant;
  created_at = [];
  created_at_camel = [];
  created = [];
  description = [];
}

abbrev pub organization : Text → Organization
organization name = record {
  id = name;
  name = name;
  created_at = [];
  created_at_camel = [];
  created = [];
}

abbrev pub networks : List Application
networks =
    network (codes "b") (codes "acme")
    ∷ network (codes "a") (codes "acme")
    ∷ network (codes "d") (codes "beta")
    ∷ network (codes "c") (codes "acme")
    ∷ network (codes "e") (codes "beta")
    ∷ network (codes "f") (codes "acme")
    ∷ network (codes "g") (codes "acme")
    ∷ []

abbrev pub device : Text → Device
device eui = record {
  dev_eui = eui;
  name = codes "sensor";
  tenant_id = codes "acme";
  application_id = codes "a";
  device_profile_id = codes "p1";
}

abbrev pub gateway : Text → Gateway
gateway id = record {
  id = id;
  name = codes "roof";
  tenant_id = codes "acme";
  description = [];
  created_at = [];
}

abbrev pub profile : Text → DeviceProfile
profile id = record {
  id = id;
  name = id;
  tenant_id = codes "acme";
  region = codes "EU868";
  mac_version = codes "1.0.3";
  supports_otaa = true;
}

abbrev pub running : Text → ℕ → DeviceStatus
running eui count = record {
  device_name = codes "sensor";
  dev_eui = eui;
  app_name = codes "a";
  tenant_id = codes "acme";
  application_id = codes "a";
  activation = codes "otaa";
  uplink_count = count;
  active_anomaly = [];
}

-- The organizations' table stands on its second page, from before the list became shorter, and the
-- networks' on its third.
abbrev pub page : State
page = record {
  organizations = organization (codes "beta") ∷ organization (codes "acme") ∷ [];
  applications = networks;
  dp_list = profile (codes "p2") ∷ profile (codes "p1") ∷ [];
  dev_list = device (codes "02") ∷ device (codes "01") ∷ [];
  dev_total_count = 2;
  all_devices = device (codes "02") ∷ device (codes "01") ∷ [];
  gateways = gateway (codes "g2") ∷ gateway (codes "g1") ∷ [];
  dev_status_list = running (codes "01") 7 ∷ running (codes "02") 3 ∷ [];
  gw_status_list =
      record {
        gateway_id = codes "g2";
        tenant_id = codes "acme";
        uplink_count = 1;
        downlink_count = 0;
      }
      ∷ record {
        gateway_id = codes "g1";
        tenant_id = codes "beta";
        uplink_count = 4;
        downlink_count = 2;
      }
      ∷ [];
  active_org_id = codes "acme";
  passive_mode = false;
  org_view = record (fresh (codes "name")) { page = 2 };
  net_view = record (fresh (codes "name")) { page = 3; tenant_filter = codes "acme" };
  dp_view = fresh (codes "name");
  dev_view = fresh (codes "dev_eui");
  dev_int_view = fresh (codes "dev_eui");
  gw_view = fresh (codes "id");
  dev_status_view = fresh (codes "uplink_count");
  gw_status_view = fresh (codes "gateway_id");
}
