-- ===== src/Tests/Drawers.antt =====
-- A profile in its drawer, whose region the drawer does not offer.
use chirpstack_simulator.Prelude.{◌≡◌, refl, some, codes, [], false, true, ◌∷◌}
use chirpstack_simulator.Tabs.Profiles.Drawer.{
  ProfileDetails, ProfileDrawer, open_dp_drawer, profile_request, save_device_profile,
  save_device_profile-open_dp_drawer, set_input,
}

abbrev chinese : ProfileDetails
chinese = record {
  id = codes "p1";
  name = codes "meter";
  tenant_id = codes "acme";
  description = b'a' ∷ b'\n' ∷ b'b' ∷ [];
  region = codes "CN470";
  mac_version = codes "LORAWAN_1_0_3";
  reg_params_revision = codes "B";
  adr_algorithm_id = codes "default";
  supports_otaa = true;
  supports_class_b = false;
  supports_class_c = false;
}

abbrev closed : ProfileDrawer
closed = record {
  active_dp_id = [];
  dp_edit_name = [];
  dp_edit_tenant_id = [];
  dp_edit_description = [];
  dp_edit_region = codes "EU868";
  dp_edit_mac_version = codes "LORAWAN_1_0_0";
  dp_edit_reg_params = codes "A";
  dp_edit_adr_alg = [];
  dp_edit_supports_otaa = false;
  dp_edit_supports_class_b = false;
  dp_edit_supports_class_c = false;
  is_open = false;
}

save_device_profile-open_dp_drawer_example :
    (profile_request (open_dp_drawer (codes "p1") (some chinese) closed)
      ≡ some (record chinese { description = codes "ab"; region = [] }))
    × ((save_device_profile true (open_dp_drawer (codes "p1") (some chinese) closed)).is_open
        ≡ false)
unfolding set_input
save_device_profile-open_dp_drawer_example =
    save_device_profile-open_dp_drawer chinese closed refl refl refl refl (refl, refl) refl
      (refl, refl)
