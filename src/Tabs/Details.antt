-- ===== src/Tabs/Details.antt =====
-- internal/api/frontend/js/utils.js: the drawer of details, with viewApplication of tabs/networks.js and
-- viewGateway of tabs/gateways.js. The markup that these build is the list of its entries, whose texts
-- the browser shows as they are, since the source escapes them.
pub mod Saved
pub mod Swapped
use chirpstack_simulator.Prelude.{
  Bool, true, false, if◌then◌else◌, Option, none, some, List, [], ◌∷◌, ◌++◌, Text, codes, text_eq,
  text_or, truthy, trim, find_by,
}
use chirpstack_simulator.State.{Engine, State, Application, Gateway}
use chirpstack_simulator.Tabs.Names.{find_net, get_org_name, dash}
use chirpstack_simulator.Tabs.Networks.{apply_app_filters_and_render, AppRow}
use chirpstack_simulator.Table.Defs.{Screen}

pub data Label : Type 0 where
  network_name gateway_name identifier gateway_eui description : Label

-- A line of the drawer, the tenant by name and id, or an input.
pub data Item : Type 0 where
  shown : Label → Text → Item
  tenant : Text → Text → Item
  input : Label → Text → Item

-- An argument of openDetailsDrawer: a plain text, or markup.
pub data Markup : Type 0 where
  plain : Text → Markup
  items : List Item → Markup

pub record Drawer : Type 0 where
  pub is_open : Bool
  pub title : Text
  pub subtitle : Markup
  pub body : Markup

-- The values of the two inputs, and whether the button that saves is enabled.
pub record NetPage : Type 0 where
  pub state : State
  pub drawer : Drawer
  pub name_input : Text
  pub desc_input : Text
  pub save_enabled : Bool

unfoldable pub open_details_drawer : Text → Markup → Markup → Drawer → Drawer
open_details_drawer title subtitle html_content d = record d {
  is_open = true;
  title = title;
  subtitle = subtitle;
  body = html_content;
}

unfoldable pub close_details_drawer : Drawer → Drawer
close_details_drawer d = record d { is_open = false }

unfoldable pub application_items : State → Bool → Application → List Item
application_items s true app =
    input network_name app.name
    ∷ shown identifier app.id
    ∷ tenant (get_org_name s app.tenant_id) (text_or app.tenant_id dash)
    ∷ input description app.description
    ∷ []
application_items s false app =
    shown network_name app.name
    ∷ shown identifier app.id
    ∷ tenant (get_org_name s app.tenant_id) (text_or app.tenant_id dash)
    ∷ shown description (text_or app.description dash)
    ∷ []

unfoldable pub drawer_subtitle : Bool → Bool → Text
drawer_subtitle is_tr edit =
    if edit
    then (if is_tr then codes "Ağı Düzenle" else codes "Edit Network")
    else (if is_tr then codes "Ağ Detayları" else codes "Network Details")

-- viewApplication, of the network that was found. `edit` is whether the mode is "edit".
unfoldable pub view_found : Bool → Bool → Application → NetPage → NetPage
view_found is_tr edit app p = record p {
  drawer =
      open_details_drawer app.name (plain (drawer_subtitle is_tr edit))
        (items (application_items p.state edit app)) p.drawer;
  name_input = if edit then app.name else p.name_input;
  desc_input = if edit then app.description else p.desc_input;
  save_enabled = edit;
}

unfoldable pub view_application : Bool → Text → Bool → NetPage → NetPage
view_application is_tr id edit p = elim (find_net p.state id) as (λ o. NetPage) [
  | none ↦ p
  | some app ↦ view_found is_tr edit app p
]

-- The request of the button that saves.
pub record Put : Type 0 where
  pub path : Text
  pub name : Text
  pub description : Text

-- The handler up to its `await`, for the network `app` that the drawer was opened for.
unfoldable pub save_application : Application → NetPage → NetPage × Option Put
save_application app p =
    let new_name = trim p.name_input in
    if truthy new_name
    then (
      record p { save_enabled = false },
      some (record {
        path = codes "/api/applications/" ++ app.id;
        name = new_name;
        description = trim p.desc_input;
      }),
    )
    else (p, none)

-- `app.name = …` and `app.description = …` at the first network with this id. The object that the drawer
-- was opened for is this one, or it is no longer in the list.
unfoldable pub update_net : Text → Text → Text → List Application → List Application
update_net id name desc [] = []
update_net id name desc (app ∷ apps) =
    let rest = update_net id name desc apps in
    if text_eq app.id id then record app { name = name; description = desc } ∷ apps else app ∷ rest

module _ (js : Engine) where
  -- The handler from the answer on, with what the table then shows.
  unfoldable pub save_answered :
      Bool → Application → Put → NetPage → NetPage × Option (Screen AppRow)
  save_answered true app put p =
      let updated = record p.state {
        applications = update_net app.id put.name put.description p.state.applications;
      } in
      let (rendered, screen) = apply_app_filters_and_render js updated in
      (
        record p {
          state = rendered;
          drawer = close_details_drawer (record p.drawer { title = put.name });
          save_enabled = true;
        },
        some screen,
      )
  save_answered false app put p = (record p { save_enabled = true }, none)

unfoldable pub find_gw : State → Text → Option Gateway
find_gw s id = find_by (λ gw. text_eq gw.id id) s.gateways

unfoldable pub gateway_items : State → Gateway → List Item
gateway_items s gw =
    shown gateway_name gw.name
    ∷ shown gateway_eui gw.id
    ∷ tenant (get_org_name s gw.tenant_id) (text_or gw.tenant_id dash)
    ∷ shown description (text_or gw.description dash)
    ∷ []

-- viewGateway passes openDetailsDrawer the markup as the subtitle and the mode as the content, with a
-- fourth argument that is not read.
unfoldable pub view_gateway_found : Bool → State → Gateway → Drawer → Drawer
view_gateway_found edit s gw d =
    open_details_drawer (text_or gw.name (codes "Geçit Detayı")) (items (gateway_items s gw))
      (plain (if edit then codes "edit" else codes "view")) d

unfoldable pub view_gateway : Text → Bool → State → Drawer → Drawer
view_gateway id edit s d = elim (find_gw s id) as (λ o. Drawer) [
  | none ↦ d
  | some gw ↦ view_gateway_found edit s gw d
]
