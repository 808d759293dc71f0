-- ===== src/OrgConfig/Stale.antt =====
-- Two drawers opened one after the other, when the server answers the second first.
use chirpstack_simulator.Prelude.{Text, some, ◌∷◌, text_eq, find_by, ◌≡◌}
use chirpstack_simulator.State.{Organization}
use chirpstack_simulator.OrgConfig.{Floats, Page}

module _ (floats : Floats) where
  abbrev pub Finds : Page floats → Text → Organization → Type 0
  Finds p id org = find_by (λ (o : Organization). text_eq o.id id) p.organizations ≡ some org

  -- What an opened drawer leaves as it was.
  abbrev Opens : Text → Organization → Page floats → Page floats → Type 0
  Opens id org p q =
      (q.fields.anomaly_boxes ≡ p.fields.anomaly_boxes)
      × (q.active_org_id ≡ id)
      × (q.organizations ≡ p.organizations)
      × (q.loading ≡ (id, org.name) ∷ p.loading)
