-- ===== src/Tabs/Details/Swapped.antt =====
-- What the drawer of a gateway shows.
use chirpstack_simulator.State.{State, Gateway}
use chirpstack_simulator.Tabs.Details.{
  Drawer, plain, items, open_details_drawer, gateway_items, find_gw, view_gateway_found,
  view_gateway, Text,
}
use chirpstack_simulator.Prelude.{Text, Bool, ◌≡◌, some, if◌then◌else◌, codes, refl}

-- Whatever gateway is opened, and in whatever mode, the content of the drawer is the bare name of the
-- mode, and the markup with the name, the id, the tenant and the description stands in the subtitle,
-- which the page shows as plain text.
pub view_gateway_swapped :
    (id : Text) (edit : Bool) (s : State) (d : Drawer) {gw : Gateway}
    → find_gw s id ≡ some gw
    → ((view_gateway id edit s d).body ≡ plain (if edit then codes "edit" else codes "view"))
      × ((view_gateway id edit s d).subtitle ≡ items (gateway_items s gw))
unfolding view_gateway view_gateway_found open_details_drawer
view_gateway_swapped id edit s d e = rw (e, view_gateway) (refl, refl)
