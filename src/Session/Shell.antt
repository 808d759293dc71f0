-- ===== src/Session/Shell.antt =====
-- internal/api/frontend/js/main.js: the tabs, their links and title, the side bar of a narrow window
-- and what each tab asks of the server when it is opened. The page has all the elements.
pub mod Clicks
use chirpstack_simulator.Prelude.{
  Bool, true, false, not, ◌&&◌, if◌then◌else◌, List, [], ◌∷◌, ◌++◌, Text, codes, text_eq, text_or,
  map, leb, ℕ,
}

pub record Content : Type 0 where
  pub id : Text
  pub active : Bool

pub record Link : Type 0 where
  pub data_tab : Text
  pub active : Bool

-- `title` is what the title bar shows, and `open_mark` whether the button of the side bar shows "✕".
pub record Shell : Type 0 where
  pub current_tab : Text
  pub contents : List Content
  pub links : List Link
  pub title : Text
  pub sidebar_open : Bool
  pub open_mark : Bool

-- The parts of `state` that a tab's requests depend on.
pub record Filters : Type 0 where
  pub dp_tenant_filter : Text
  pub net_tenant_filter : Text
  pub gw_tenant_filter : Text
  pub dev_tenant_filter : Text
  pub metrics_chart : Bool

pub data Load : Type 0 where
  organizations simulation_devices system_logs telemetry_orgs chart : Load
  devices device_profiles applications gateways : Text → Load

-- `titles`, as the keys that `t` translates.
unfoldable pub titles : List (Text × Text)
titles =
    (codes "overview", codes "nav_organizations")
    ∷ (codes "live-map", codes "nav_live_map")
    ∷ (codes "devices", codes "nav_device_profiles")
    ∷ (codes "networks", codes "nav_networks")
    ∷ (codes "gateways", codes "nav_gateways")
    ∷ (codes "device-list", codes "nav_devices")
    ∷ (codes "device-status", codes "nav_device_status")
    ∷ (codes "log-center", codes "nav_log_center")
    ∷ (codes "dynamic-telemetry", codes "nav_dynamic_telemetry")
    ∷ (codes "settings", codes "nav_settings")
    ∷ (codes "info", codes "info_title")
    ∷ []

unfoldable pub title_in : (Text → Text) → Text → List (Text × Text) → Text
title_in t name [] = codes "Overview"
title_in t name ((tab, key) ∷ rest) =
    if text_eq tab name then text_or (t key) (codes "Overview") else title_in t name rest

unfoldable pub update_page_title : (Text → Text) → Shell → Shell
update_page_title t s = record s { title = title_in t s.current_tab titles }

-- The first element with this id becomes active; without one nothing does.
unfoldable pub activate : Text → List Content → List Content
activate id [] = []
activate id (c ∷ cs) =
    if text_eq c.id id then record c { active = true } ∷ cs else c ∷ activate id cs

unfoldable pub deactivate : Content → Content
deactivate c = record c { active = false }

unfoldable pub mark : Text → Link → Link
mark name l = record l { active = text_eq l.data_tab name }

unfoldable pub loads_of : Filters → Text → List Load
loads_of f name =
    if text_eq name (codes "overview")
    then organizations ∷ []
    else if text_eq name (codes "live-map")
    then organizations ∷ devices [] ∷ (if f.metrics_chart then [] else chart ∷ [])
    else if text_eq name (codes "devices")
    then device_profiles f.dp_tenant_filter ∷ []
    else if text_eq name (codes "networks")
    then applications f.net_tenant_filter ∷ []
    else if text_eq name (codes "gateways")
    then gateways f.gw_tenant_filter ∷ []
    else if text_eq name (codes "device-list")
    then devices f.dev_tenant_filter ∷ []
    else if text_eq name (codes "device-status")
    then organizations ∷ applications [] ∷ devices [] ∷ simulation_devices ∷ []
    else if text_eq name (codes "log-center")
    then system_logs ∷ []
    else if text_eq name (codes "dynamic-telemetry")
    then telemetry_orgs ∷ []
    else []

unfoldable pub content_id : Text → Text
content_id name = codes "content-" ++ name

unfoldable pub switch_tab : (Text → Text) → Filters → Text → Shell → Shell × List Load
switch_tab t f name s = (
  update_page_title t (record s {
    current_tab = name;
    contents = activate (content_id name) (map deactivate s.contents);
    links = map (mark name) s.links;
  }),
  loads_of f name,
)

-- A click on a link of the side bar: a window of at most 900 pixels closes the bar.
unfoldable pub click_tab : (Text → Text) → Filters → ℕ → Text → Shell → Shell
click_tab t f inner_width tab s =
    let switched = (switch_tab t f tab s).0 in
    if leb inner_width 900
    then record switched { sidebar_open = false; open_mark = false }
    else switched

-- The button of the side bar, its close button, and a click elsewhere on the page.
unfoldable pub click_hamburger : Shell → Shell
click_hamburger s =
    let is_open = not s.sidebar_open in record s { sidebar_open = is_open; open_mark = is_open }

unfoldable pub close_sidebar : Shell → Shell
close_sidebar s = record s { sidebar_open = false; open_mark = false }

unfoldable pub click_page : Bool → Bool → Shell → Shell
click_page in_sidebar in_hamburger s =
    if s.sidebar_open && not in_sidebar && not in_hamburger
    then record s { sidebar_open = false; open_mark = false }
    else s
