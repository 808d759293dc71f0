-- ===== src/Dashboard/Map.antt =====
-- internal/api/frontend/js/tabs/dashboard.js: updateMap, which draws the hubs and the devices of the
-- active organization. `coords` is getDeterministicCoords, and `beside` the place of a device near its
-- hub, both of floating-point numbers; the layers are those that the lists of markers and lines hold,
-- which the source takes off the map before it draws.
pub mod Connected
use chirpstack_simulator.State.{State, Application, Device, Organization}
use chirpstack_simulator.Dashboard.Hash.{get_deterministic_hash}
use chirpstack_simulator.Prelude.{
  Text, codes, Option, ℕ, List, ◌++◌, [], filter_by, ◌∷◌, none, text_eq, map, some, not, suc,
  if◌then◌else◌, truthy, ◌+◌, ◌||◌, zero, get_elem?, length, ◌==◌, ◌%◌, text_or,
}
use chirpstack_simulator.Prelude.Decimals.{show_digits}

module _ {Coords : Type 0} (coords : Text → Coords) (beside : Text → Coords → Coords) where
  -- The hub of a network, or of a gateway by its number.
  pub record Hub : Type 0 where
    pub place : Coords
    pub name : Text
    pub app_id : Option Text

  -- The marker of a device and the line from it to its hub, which have one `devEUI`.
  pub record Placed : Type 0 where
    pub dev_eui : Text
    pub place : Coords
    pub hub : Hub

  pub record Drawing : Type 0 where
    pub hubs : List Hub
    pub devices : List Placed

  unfoldable pub org_apps : State → List Application
  org_apps s =
      filter_by (λ (app : Application). text_eq app.tenant_id s.active_org_id) s.applications

  unfoldable pub org_devices : State → List Device
  org_devices s =
      filter_by
        (λ (d : Device). not (truthy s.active_org_id) || text_eq d.tenant_id s.active_org_id)
        s.all_devices

  unfoldable pub app_hub : Application → Hub
  app_hub app = record {
    place = coords (codes "app-gateway-" ++ app.id);
    name = app.name;
    app_id = some app.id;
  }

  -- `rest` hubs from the number `i` on; no organization is `null`.
  unfoldable pub gateway_hubs : Text → ℕ → ℕ → List Hub
  gateway_hubs org_id i zero = []
  gateway_hubs org_id i (suc rest) =
      record {
        place = coords (
            codes "gateway-" ++ (text_or org_id (codes "null") ++ (codes "-" ++ show_digits 21 i)));
        name = codes "Gateway-" ++ show_digits 21 (i + 1);
        app_id = none;
      }
      ∷ gateway_hubs org_id (i + 1) rest

  unfoldable pub hubs_for : Text → ℕ → List Application → List Hub
  hubs_for org_id gw_count [] = gateway_hubs org_id 0 gw_count
  hubs_for org_id gw_count (app ∷ apps) = map app_hub (app ∷ apps)

  -- `findIndex` of the device's network.
  unfoldable pub index_of_app : Text → List Application → Option ℕ
  index_of_app id [] = none
  index_of_app id (app ∷ apps) =
      let rest = index_of_app id apps in
      if text_eq app.id id then some 0 else elim rest [ none ↦ none | some i ↦ some (suc i) ]

  -- An index that is `NaN`, after a division by 0, is `none`.
  unfoldable pub hub_index : Option ℕ → Text → ℕ → Option ℕ
  hub_index (some i) dev_eui hub_count = some i
  hub_index none dev_eui hub_count =
      if hub_count == 0 then none else some (get_deterministic_hash dev_eui % hub_count)

  unfoldable pub element_at : List Hub → Option ℕ → Option Hub
  element_at hubs none = none
  element_at hubs (some i) = get_elem? hubs i

  unfoldable pub hub_of : List Application → List Hub → Device → Option Hub
  hub_of apps hubs d =
      element_at hubs (hub_index (index_of_app d.application_id apps) d.dev_eui (length hubs))

  unfoldable pub place_device : Option Hub → Device → List Placed → List Placed
  place_device none d rest = rest
  place_device (some hub) d rest =
      record { dev_eui = d.dev_eui; place = beside d.dev_eui hub.place; hub = hub } ∷ rest

  unfoldable pub place_devices : List Application → List Hub → List Device → List Placed
  place_devices apps hubs [] = []
  place_devices apps hubs (d ∷ devices) =
      place_device (hub_of apps hubs d) d (place_devices apps hubs devices)

  -- `gateway_count` of the configuration, and 2 without it.
  unfoldable pub gateway_count : Option ℕ → ℕ
  gateway_count none = 2
  gateway_count (some n) = n

  unfoldable pub update_map : Option ℕ → State → Drawing
  update_map configured s =
      let hubs = hubs_for s.active_org_id (gateway_count configured) (org_apps s) in
      record { hubs = hubs; devices = place_devices (org_apps s) hubs (org_devices s) }
