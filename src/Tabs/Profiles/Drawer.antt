-- ===== src/Tabs/Profiles/Drawer.antt =====
-- internal/api/frontend/js/tabs/devices.js: the drawer in which a device profile is edited.
use chirpstack_simulator.OrgConfig.Boxes.{contains}
use chirpstack_simulator.Prelude.{
  Bool, true, false, not, ◌||◌, Option, none, some, List, [], ◌∷◌, Text, text_or, codes, truthy,
  trim, if◌then◌else◌, ◌≡◌, refl, ◌∙◌, ap, filter_by, ◌==◌,
}

-- A profile as the server lists it, with the fields that the drawer shows; empty where one is missing.
pub record ProfileDetails : Type 0 where
  pub id : Text
  pub name : Text
  pub tenant_id : Text
  pub description : Text
  pub region : Text
  pub mac_version : Text
  pub reg_params_revision : Text
  pub adr_algorithm_id : Text
  pub supports_otaa : Bool
  pub supports_class_b : Bool
  pub supports_class_c : Bool

-- `state.activeDpId`, and the values of the fields; `dp_edit_tenant`, which only shows a name, is left
-- out.
pub record ProfileDrawer : Type 0 where
  pub active_dp_id : Text
  pub dp_edit_name : Text
  pub dp_edit_tenant_id : Text
  pub dp_edit_description : Text
  pub dp_edit_region : Text
  pub dp_edit_mac_version : Text
  pub dp_edit_reg_params : Text
  pub dp_edit_adr_alg : Text
  pub dp_edit_supports_otaa : Bool
  pub dp_edit_supports_class_b : Bool
  pub dp_edit_supports_class_c : Bool
  pub is_open : Bool

-- The options of the three selects, and the value of a <select> that is set to `v`: the browser selects
-- nothing if there is no such option.
abbrev pub region_options : List Text
region_options =
    codes "EU868"
    ∷ codes "US915"
    ∷ codes "AS923"
    ∷ codes "AU915"
    ∷ codes "IN865"
    ∷ codes "KR920"
    ∷ codes "RU864"
    ∷ []

abbrev pub mac_version_options : List Text
mac_version_options =
    codes "LORAWAN_1_0_0"
    ∷ codes "LORAWAN_1_0_1"
    ∷ codes "LORAWAN_1_0_2"
    ∷ codes "LORAWAN_1_0_3"
    ∷ codes "LORAWAN_1_0_4"
    ∷ codes "LORAWAN_1_1_0"
    ∷ []

abbrev pub reg_params_options : List Text
reg_params_options = codes "A" ∷ codes "B" ∷ []

unfoldable pub set_select : List Text → Text → Text
set_select options v = if contains v options then v else []

-- The value of an <input type="text"> that is set to `v`: the browser takes the line breaks out.
unfoldable pub set_input : Text → Text
set_input v = filter_by (λ c. not (c == 10 || c == 13)) v

-- openDpDrawer, by what `findDp` finds.
unfoldable pub open_dp_drawer : Text → Option ProfileDetails → ProfileDrawer → ProfileDrawer
open_dp_drawer id none d = d
open_dp_drawer id (some dp) d = record {
  active_dp_id = id;
  dp_edit_name = set_input dp.name;
  dp_edit_tenant_id = dp.tenant_id;
  dp_edit_description = set_input dp.description;
  dp_edit_region = set_select region_options (text_or dp.region (codes "EU868"));
  dp_edit_mac_version =
      set_select mac_version_options (text_or dp.mac_version (codes "LORAWAN_1_0_3"));
  dp_edit_reg_params = set_select reg_params_options (text_or dp.reg_params_revision (codes "B"));
  dp_edit_adr_alg = set_input (text_or dp.adr_algorithm_id (codes "default"));
  dp_edit_supports_otaa = dp.supports_otaa;
  dp_edit_supports_class_b = dp.supports_class_b;
  dp_edit_supports_class_c = dp.supports_class_c;
  is_open = true;
}

unfoldable pub close_dp_drawer : ProfileDrawer → ProfileDrawer
close_dp_drawer d = record d { is_open = false; active_dp_id = [] }

-- The request of saveDeviceProfile, its path's id included, where `none` is an early return.
unfoldable pub profile_request : ProfileDrawer → Option ProfileDetails
profile_request d =
    if not (truthy d.active_dp_id) || not (truthy (trim d.dp_edit_name))
    then none
    else some (record {
      id = d.active_dp_id;
      name = trim d.dp_edit_name;
      tenant_id = d.dp_edit_tenant_id;
      description = trim d.dp_edit_description;
      region = d.dp_edit_region;
      mac_version = d.dp_edit_mac_version;
      reg_params_revision = d.dp_edit_reg_params;
      adr_algorithm_id = text_or (trim d.dp_edit_adr_alg) (codes "default");
      supports_otaa = d.dp_edit_supports_otaa;
      supports_class_b = d.dp_edit_supports_class_b;
      supports_class_c = d.dp_edit_supports_class_c;
    })

unfoldable pub profile_sent : Option ProfileDetails → Bool → ProfileDrawer → ProfileDrawer
profile_sent none accepts d = d
profile_sent (some request) accepts d = if accepts then close_dp_drawer d else d

-- saveDeviceProfile, as far as the drawer goes; after a save the profiles are fetched.
unfoldable pub save_device_profile : Bool → ProfileDrawer → ProfileDrawer
save_device_profile accepts d = profile_sent (profile_request d) accepts d

-- A text without blanks round it.
abbrev pub IsTrimmed : Text → Type 0
IsTrimmed t = trim t ≡ t

text_or-truthy : (t d : Text) → truthy t ≡ true → text_or t d ≡ t
text_or-truthy [] d h = absurd cc
text_or-truthy (c ∷ t) d h = refl

-- A text as a single-line input keeps it, which has something besides line breaks and no blanks round it.
abbrev pub IsKept : Text → Type 0
IsKept t = (truthy (set_input t) ≡ true) × IsTrimmed (set_input t)

not_empty : (t : Text) → truthy (set_input t) ≡ true → truthy t ≡ true
unfolding set_input
not_empty [] h = h
not_empty (c ∷ t) h = refl

adr_kept : (t d : Text) → IsKept t → text_or (trim (set_input (text_or t d))) d ≡ set_input t
adr_kept t d h =
    ap (λ (s : Text). text_or (trim (set_input s)) d) (text_or-truthy t d (not_empty t h.0))
    ∙ ap (λ (s : Text). text_or s d) h.1
    ∙ text_or-truthy (set_input t) d h.0

select_kept :
    (options : List Text) (v d : Text)
    → truthy v ≡ true
    → set_select options (text_or v d) ≡ (if contains v options then v else [])
unfolding set_select
select_kept options v d h =
    ap (λ (t : Text). if contains t options then t else []) (text_or-truthy v d h)

closes :
    (d : ProfileDrawer) (request : Option ProfileDetails) (r : ProfileDetails)
    → request ≡ some r
    → (profile_sent request true d).is_open ≡ false
unfolding profile_sent close_dp_drawer
closes d none r e = absurd cc
closes d (some q) r e = refl

guard_passed :
    (a b : Bool) (x : ProfileDetails)
    → a ≡ true
    → b ≡ true
    → (if not a || not b then none else some x) ≡ some x
guard_passed a b x p q = simp (p, q) refl

-- A profile that is opened and saved with nothing edited is sent with its region, version and revision
-- where the selects offer them, and with the empty text in the place of each that they do not; its name,
-- description and algorithm lose their line breaks, and the rest is sent as it was. The profile is to
-- have an id, a region, a version and a revision, and its name and its algorithm something besides line
-- breaks; without them, neither of these nor the description is to have blanks round it. If the server
-- takes it, the drawer is closed.
pub save_device_profile-open_dp_drawer :
    (dp : ProfileDetails) (d : ProfileDrawer)
    → truthy dp.id ≡ true
    → truthy dp.region ≡ true
    → truthy dp.mac_version ≡ true
    → truthy dp.reg_params_revision ≡ true
    → IsKept dp.name
    → IsTrimmed (set_input dp.description)
    → IsKept dp.adr_algorithm_id
    → let opened = open_dp_drawer dp.id (some dp) d in
      (profile_request opened
        ≡ some (record dp {
          name = set_input dp.name;
          description = set_input dp.description;
          adr_algorithm_id = set_input dp.adr_algorithm_id;
          region = if contains dp.region region_options then dp.region else [];
          mac_version = if contains dp.mac_version mac_version_options then dp.mac_version else [];
          reg_params_revision =
              if contains dp.reg_params_revision reg_params_options
              then dp.reg_params_revision
              else [];
        }))
      × ((save_device_profile true opened).is_open ≡ false)
unfolding open_dp_drawer profile_request save_device_profile
save_device_profile-open_dp_drawer dp d id region mac params n s a =
    let opened = open_dp_drawer dp.id (some dp) d in
    let named : truthy (trim (set_input dp.name)) ≡ true = ap truthy n.1 ∙ n.0 in
    let request = guard_passed (truthy dp.id) (truthy (trim (set_input dp.name))) _ id named in
    (
      request ∙ (λ i. some (record {
        id = dp.id;
        name = n.1 i;
        tenant_id = dp.tenant_id;
        description = s i;
        region = select_kept region_options dp.region (codes "EU868") region i;
        mac_version = select_kept mac_version_options dp.mac_version (codes "LORAWAN_1_0_3") mac i;
        reg_params_revision =
            select_kept reg_params_options dp.reg_params_revision (codes "B") params i;
        adr_algorithm_id = adr_kept dp.adr_algorithm_id (codes "default") a i;
        supports_otaa = dp.supports_otaa;
        supports_class_b = dp.supports_class_b;
        supports_class_c = dp.supports_class_c;
      })),
      closes opened (profile_request opened) _ request,
    )
