-- ===== src/Tabs/Names.antt =====
-- The lookups by id that the tabs share (`findOrg`, `getOrgName` of tabs/orgs.js, `findNet` of
-- tabs/networks.js, `findDp` of tabs/devices.js, `getAppName`, `getDpName` of tabs/device-list.js).
use chirpstack_simulator.Prelude.{
  Option, none, some, if◌then◌else◌, find_by, Text, text_eq, truthy, text_or, codes, ℕ, ltb, length,
  take, ◌++◌,
}
use chirpstack_simulator.State.{Engine, State, Organization, Application, DeviceProfile}

abbrev pub dash : Text
dash = codes "—"

unfoldable pub find_org : State → Text → Option Organization
find_org s id = find_by (λ o. text_eq o.id id) s.organizations

unfoldable pub get_org_name : State → Text → Text
unfolding find_org
get_org_name s tenant_id =
    if truthy tenant_id
    then (elim (find_org s tenant_id) [ none ↦ tenant_id | some org ↦ org.name ])
    else dash

unfoldable pub find_net : State → Text → Option Application
find_net s id = find_by (λ app. text_eq app.id id) s.applications

unfoldable pub get_app_name : State → Text → Text
unfolding find_net
get_app_name s app_id =
    if truthy app_id
    then (elim (find_net s app_id) [ none ↦ app_id | some app ↦ app.name ])
    else dash

unfoldable pub find_dp : State → Text → Option DeviceProfile
find_dp s id = find_by (λ dp. text_eq dp.id id) s.dp_list

unfoldable pub get_dp_name : State → Text → Text
unfolding find_dp
get_dp_name s dp_id =
    if truthy dp_id then (elim (find_dp s dp_id) [ none ↦ dp_id | some dp ↦ dp.name ]) else dash

-- `new Date(created_at || createdAt || created || 0)`, with 0 for an invalid date.
unfoldable pub created_time : Engine → Text → Text → Text → ℕ
created_time js a b c =
    let value = text_or a (text_or b c) in
    if truthy value then (elim (js.date_parse value) [ none ↦ 0 | some ms ↦ ms ]) else 0

-- An id of more than 20 characters is cut in the tables.
unfoldable pub short_id : Text → Text
short_id id = if ltb 20 (length id) then take 20 id ++ codes "…" else id
