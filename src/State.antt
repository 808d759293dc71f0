-- ===== src/State.antt =====
-- internal/api/frontend/js/state.js: the one object that all tabs read and change, with the records
-- that the server sends. The fields of a table (`appSort`, `appPage`, …) stand together in a `View`;
-- gateways.js adds its own fields to the object. An id of `null` is the empty text here, which is
-- false in a condition as `null` is, and which is no id.
use chirpstack_simulator.Prelude.{ℕ, Bool, Option, List, Text, Ordering}
use chirpstack_simulator.Table.Defs.{View}

-- What the browser's JavaScript engine provides: `toLowerCase`, `toUpperCase`, the sign of `localeCompare`, and the
-- time value of `new Date(text)`, where `none` is `NaN`.
pub record Engine : Type 0 where
  pub to_lower : Text → Text
  pub to_upper : Text → Text
  pub locale_compare : Text → Text → Ordering
  pub date_parse : Text → Option ℕ

pub record Organization : Type 0 where
  pub id : Text
  pub name : Text
  pub created_at : Text
  pub created_at_camel : Text
  pub created : Text

pub record Application : Type 0 where
  pub id : Text
  pub name : Text
  pub tenant_id : Text
  pub created_at : Text
  pub created_at_camel : Text
  pub created : Text
  pub description : Text

pub record DeviceProfile : Type 0 where
  pub id : Text
  pub name : Text
  pub tenant_id : Text
  pub region : Text
  pub mac_version : Text
  pub supports_otaa : Bool

pub record Device : Type 0 where
  pub dev_eui : Text
  pub name : Text
  pub tenant_id : Text
  pub application_id : Text
  pub device_profile_id : Text

pub record Gateway : Type 0 where
  pub id : Text
  pub name : Text
  pub tenant_id : Text
  pub description : Text
  pub created_at : Text

-- A device of the running simulation, and a gateway of it.
pub record DeviceStatus : Type 0 where
  pub device_name : Text
  pub dev_eui : Text
  pub app_name : Text
  pub tenant_id : Text
  pub application_id : Text
  pub activation : Text
  pub uplink_count : ℕ
  pub active_anomaly : Text

pub record GatewayStatus : Type 0 where
  pub gateway_id : Text
  pub tenant_id : Text
  pub uplink_count : ℕ
  pub downlink_count : ℕ

pub record State : Type 0 where
  pub organizations : List Organization
  pub applications : List Application
  pub dp_list : List DeviceProfile
  pub dev_list : List Device
  pub dev_total_count : ℕ
  pub all_devices : List Device
  pub gateways : List Gateway
  pub dev_status_list : List DeviceStatus
  pub gw_status_list : List GatewayStatus
  pub active_org_id : Text
  pub passive_mode : Bool
  pub org_view : View Organization
  pub net_view : View Application
  pub dp_view : View DeviceProfile
  pub dev_view : View Device
  pub dev_int_view : View Device
  pub gw_view : View Gateway
  pub dev_status_view : View DeviceStatus
  pub gw_status_view : View GatewayStatus
