-- ===== src/Tabs/Fetching.antt =====
-- internal/api/frontend/js/tabs/networks.js, gateways.js, devices.js and orgs.js: the requests that load
-- the lists, and those that delete or create. The server's answers are arguments: of a list, `none` is an
-- answer that is not ok; `accepts` is whether a deletion or a creation is ok. Nothing is drawn where the
-- result is `none`. What only goes to the log and to the toasts is left out.
pub mod Active
use chirpstack_simulator.Prelude.{
  Bool, ◌&&◌, Option, none, some, List, [], ◌∷◌, Text, text_eq, truthy, find_by, if◌then◌else◌,
}
use chirpstack_simulator.Table.Defs.{Screen}
use chirpstack_simulator.State.{Engine, State, Organization, Application, DeviceProfile, Gateway}
use chirpstack_simulator.Tabs.Names.{find_org, find_net, find_dp}
use chirpstack_simulator.Tabs.Networks.{AppRow, apply_app_filters_and_render}
use chirpstack_simulator.Tabs.Gateways.{GwRow, apply_gw_filters_and_render}
use chirpstack_simulator.Tabs.Profiles.{DpRow, apply_dp_filters_and_render}
use chirpstack_simulator.Tabs.Orgs.{OrgRow, apply_filters_and_render}

-- `answer || []`
abbrev pub or_empty {ℓ} : {A : Type ℓ} → Option (List A) → List A
or_empty none = []
or_empty (some xs) = xs

-- selectDefaultOrgIfNone, of the organizations of the page. Loading the configuration of the organization
-- that it selects is the matter of OrgConfig.
unfoldable pub select_default_org_if_none : List Organization → State → State
select_default_org_if_none [] s = s
select_default_org_if_none (org ∷ orgs) s =
    if truthy s.active_org_id then s else record s { active_org_id = org.id }

module _ (js : Engine) where
  unfoldable pub fetch_applications :
      Option (List Application) → State → Option (State × Screen AppRow)
  fetch_applications none s = none
  fetch_applications (some applications) s =
      some (apply_app_filters_and_render js (record s { applications = applications }))

  unfoldable pub delete_application :
      Bool → Bool → Option (List Application) → Text → State → Option (State × Screen AppRow)
  delete_application confirmed accepts answer id s = elim (find_net s id) [
    | none ↦ none
    | some app ↦ if confirmed && accepts then fetch_applications answer s else none
  ]

  unfoldable pub create_application :
      Bool → Option (List Application) → State → Option (State × Screen AppRow)
  create_application accepts answer s = if accepts then fetch_applications answer s else none

  unfoldable pub fetch_gateways : Option (List Gateway) → State → Option (State × Screen GwRow)
  fetch_gateways none s = none
  fetch_gateways (some gateways) s =
      some (apply_gw_filters_and_render js (record s { gateways = gateways }))

  unfoldable pub delete_gateway :
      Bool → Bool → Option (List Gateway) → Text → State → Option (State × Screen GwRow)
  delete_gateway confirmed accepts answer id s =
      elim (find_by (λ (g : Gateway). text_eq g.id id) s.gateways) [
        | none ↦ none
        | some gw ↦ if confirmed && accepts then fetch_gateways answer s else none
      ]

  unfoldable pub create_gateway :
      Bool → Option (List Gateway) → State → Option (State × Screen GwRow)
  create_gateway accepts answer s = if accepts then fetch_gateways answer s else none

  -- The table of organizations counts the profiles, so it is drawn too.
  unfoldable pub fetch_device_profiles :
      Option (List DeviceProfile) → State → State × Screen DpRow × Screen OrgRow
  fetch_device_profiles answer s =
      let (drawn, profiles) =
        apply_dp_filters_and_render js (record s { dp_list = or_empty answer }) in
      let (last, organizations) = apply_filters_and_render js drawn in
      (last, profiles, organizations)

  unfoldable pub delete_device_profile :
      Bool
      → Bool
      → Option (List DeviceProfile)
      → Text
      → State
      → Option (State × Screen DpRow × Screen OrgRow)
  delete_device_profile confirmed accepts answer id s = elim (find_dp s id) [
    | none ↦ none
    | some dp ↦ if confirmed && accepts then some (fetch_device_profiles answer s) else none
  ]

  unfoldable pub create_device_profile :
      Bool → Option (List DeviceProfile) → State → Option (State × Screen DpRow × Screen OrgRow)
  create_device_profile accepts answer s =
      if accepts then some (fetch_device_profiles answer s) else none

  unfoldable pub fetch_organizations : Option (List Organization) → State → State × Screen OrgRow
  fetch_organizations answer s =
      let (drawn, organizations) =
        apply_filters_and_render js (record s { organizations = or_empty answer }) in
      (select_default_org_if_none (or_empty answer) drawn, organizations)

  unfoldable pub delete_organization :
      Bool → Bool → Option (List Organization) → Text → State → Option (State × Screen OrgRow)
  delete_organization confirmed accepts answer id s = elim (find_org s id) [
    | none ↦ none
    | some org ↦
        if confirmed && accepts
        then some (
            fetch_organizations answer (record s {
              active_org_id = if text_eq s.active_org_id id then [] else s.active_org_id;
            }))
        else none
  ]

  -- `created` is the organization of the answer, and `none` a refusal.
  unfoldable pub create_organization :
      Option Organization → Option (List Organization) → State → Option (State × Screen OrgRow)
  create_organization none answer s = none
  create_organization (some org) answer s =
      let (listed, screen) = fetch_organizations answer s in
      some (record listed { active_org_id = org.id }, screen)
