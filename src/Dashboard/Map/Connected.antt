-- ===== src/Dashboard/Map/Connected.antt =====
-- The hubs that the devices on the map are connected to.
use mathlib.Core.Option.{some-injective}
use chirpstack_simulator.State.{State, Application, Device}
use chirpstack_simulator.Dashboard.Map.{
  Hub, Placed, app_hub, index_of_app, hub_index, element_at, hub_of, place_device, place_devices,
  hubs_for, update_map, org_apps, org_devices, Text, List, Option, ℕ, some, ◌∷◌, text_eq, get_elem?,
  length, map, suc, gateway_count, get_deterministic_hash, codes,
}
use chirpstack_simulator.Prelude.{
  Text, List, ◌≡◌, ℕ, Option, some, find_by, ◌<◌, get_elem?, length, text_eq, arith, Bool-cases, [],
  inl, zero, ap, inr, refl, length-map, Option-cases, ◌∙◌, none, ◌==◌, ◌%◌, false, sym, codes, ◌++◌,
}
use chirpstack_simulator.Dashboard.Hash.{get_deterministic_hash}

module _ {Coords : Type 0} (coords : Text → Coords) (beside : Text → Coords → Coords) where
  abbrev HubC : Type 0
  HubC = Hub coords beside

  abbrev pub by_network : Text → List Application → Option Application
  by_network id apps = find_by (λ (app : Application). text_eq app.id id) apps

  -- The index of a network is that of its hub.
  record Indexed (id : Text) (apps : List Application) (app : Application) : Type 0 where
    pub index : ℕ
    pub found : index_of_app coords beside id apps ≡ some index
    pub hub : get_elem? (map (app_hub coords beside) apps) index ≡ some (app_hub coords beside app)

  index_of_app-Indexed :
      (id : Text) (apps : List Application) (app : Application)
      → by_network id apps ≡ some app
      → Indexed id apps app
  unfolding index_of_app
  index_of_app-Indexed id [] app e = absurd (cc e)
  index_of_app-Indexed id (a ∷ apps) app e = elim (Bool-cases (text_eq a.id id)) [
    | inl k ↦ record {
      index = 0;
      found = rw k refl;
      hub = ap some (ap (app_hub coords beside) (ground (arith, e, k)));
    }
    | inr k ↦
        let rest = index_of_app-Indexed id apps app (ground (arith, e, k)) in
        record { index = suc rest.index; found = rw (k, rest.found) refl; hub = rest.hub }
  ]

  index-lt :
      (id : Text) (apps : List Application) (i : ℕ)
      → index_of_app coords beside id apps ≡ some i
      → i < length apps
  unfolding index_of_app
  index-lt id [] i e = absurd (cc e)
  index-lt id (a ∷ apps) i e = elim (Option-cases (index_of_app coords beside id apps)) [
    | inl n ↦ ground (arith, e, n)
    | inr (j, q) ↦ ground (arith, e, q, index-lt id apps j q)
  ]

  get_elem?-some :
      (hubs : List HubC) (i : ℕ) → i < length hubs → (h : HubC) × (get_elem? hubs i ≡ some h)
  get_elem?-some [] i l = absurd (omega arith)
  get_elem?-some (h ∷ hubs) zero l = (h, refl)
  get_elem?-some (h ∷ hubs) (suc i) l = get_elem?-some hubs i (omega arith)

  below : (a n : ℕ) → 0 < n → a % n < n
  below a n p = grind arith

  hubs_of : List Application → List HubC
  hubs_of apps = map (app_hub coords beside) apps

  indexed-some :
      (apps : List Application) (o : Option ℕ) (d : Device)
      → 0 < length apps
      → ((i : ℕ) → o ≡ some i → i < length apps)
      → (h : HubC) × (element_at coords beside
            (hubs_of apps)
            (hub_index coords beside o d.dev_eui (length (hubs_of apps)))
          ≡ some h)
  unfolding element_at hub_index hubs_of
  indexed-some apps none d p h =
      let n = length (hubs_of apps) in
      let count : n ≡ length apps = length-map apps (app_hub coords beside) in
      let not_zero : (n == 0) ≡ false = ground (arith, count, p) in
      rw not_zero (
        get_elem?-some (hubs_of apps) (get_deterministic_hash d.dev_eui % n)
          (below (get_deterministic_hash d.dev_eui) n (omega (arith, count, p))))
  indexed-some apps (some i) d p h =
      get_elem?-some _ i (rw (length-map apps (app_hub coords beside)) (h i refl))

  hub_of-some :
      (apps : List Application) (d : Device)
      → 0 < length apps
      → (h : HubC) × (hub_of coords beside apps (hubs_of apps) d ≡ some h)
  unfolding hub_of
  hub_of-some apps d p =
      indexed-some apps (index_of_app coords beside d.application_id apps) d p
        (index-lt d.application_id apps)

  connected :
      (apps : List Application) (d : Device) (app : Application)
      → by_network d.application_id apps ≡ some app
      → hub_of coords beside apps (hubs_of apps) d ≡ some (app_hub coords beside app)
  unfolding hub_of hubs_of element_at hub_index
  connected apps d app e =
      let v = index_of_app-Indexed d.application_id apps app e in rw v.found v.hub

  network_hubs :
      (org_id : Text) (n : ℕ) (apps : List Application)
      → 0 < length apps
      → hubs_for coords beside org_id n apps ≡ hubs_of apps
  unfolding hubs_for hubs_of
  network_hubs org_id n [] p = absurd (omega arith)
  network_hubs org_id n (a ∷ apps) p = refl

  -- The hub of a device: that of its network, by the network's id and name, or, where its network is
  -- not among them, the hub whose number is the remainder of the hash of the device.
  abbrev pub Serves : Option Application → Text → List HubC → HubC → Type 0
  Serves none dev_eui hubs hub =
      get_elem? hubs (get_deterministic_hash dev_eui % length hubs) ≡ some hub
  Serves (some app) dev_eui hubs hub =
      (hub.app_id ≡ some app.id)
      × (hub.name ≡ app.name)
      × (hub.place ≡ coords (codes "app-gateway-" ++ app.id))

  ids :
      (apps : List Application)
      → map (λ (h : HubC). h.app_id) (hubs_of apps) ≡ map (λ (app : Application). some app.id) apps
  unfolding hubs_of app_hub
  ids [] = refl
  ids (app ∷ apps) = ap (some app.id ∷◌) (ids apps)

  -- What is drawn of a device: its marker beside its hub, and the line to that hub.
  pub record Drawn (apps : List Application) (hubs : List HubC) (d : Device)
      (placed : Placed coords beside) : Type 0 where
    pub dev_eui : placed.dev_eui ≡ d.dev_eui
    pub place : placed.place ≡ beside d.dev_eui placed.hub.place
    pub hub : Serves (by_network d.application_id apps) d.dev_eui hubs placed.hub

  -- One marker for each device, in the order of the devices, and no other.
  abbrev pub AllDrawn :
      List Application → List HubC → List Device → List (Placed coords beside) → Type 0
  AllDrawn apps hubs [] [] = Unit
  AllDrawn apps hubs [] (placed ∷ rest) = ⊥
  AllDrawn apps hubs (d ∷ devices) [] = ⊥
  AllDrawn apps hubs (d ∷ devices) (placed ∷ rest) =
      Drawn apps hubs d placed × AllDrawn apps hubs devices rest

  no_index :
      (id : Text) (apps : List Application)
      → by_network id apps ≡ none
      → index_of_app coords beside id apps ≡ none
  unfolding index_of_app
  no_index id [] e = refl
  no_index id (a ∷ apps) e = elim (Bool-cases (text_eq a.id id)) [
    | inl k ↦ absurd (cc (rw k at e))
    | inr k ↦ rw (k, no_index id apps (rw k at e)) refl
  ]

  hashed :
      (apps : List Application) (d : Device)
      → 0 < length apps
      → by_network d.application_id apps ≡ none
      → hub_of coords beside apps (hubs_of apps) d
        ≡ get_elem? (hubs_of apps) (get_deterministic_hash d.dev_eui % length (hubs_of apps))
  unfolding hub_of hub_index element_at hubs_of
  hashed apps d p e =
      let count : length (hubs_of apps) ≡ length apps = length-map apps (app_hub coords beside) in
      let not_zero : (length (hubs_of apps) == 0) ≡ false = ground (arith, count, p) in
      rw (no_index d.application_id apps e, not_zero) refl

  hub_of-Serves :
      (apps : List Application) (d : Device) (o : Option Application) (hub : HubC)
      → 0 < length apps
      → by_network d.application_id apps ≡ o
      → hub_of coords beside apps (hubs_of apps) d ≡ some hub
      → Serves o d.dev_eui (hubs_of apps) hub
  hub_of-Serves apps d none hub p e k = sym (hashed apps d p e) ∙ k
  hub_of-Serves apps d (some app) hub p e k =
      let same : app_hub coords beside app ≡ hub =
        some-injective _ _ (sym (connected apps d app e) ∙ k) in
      unfold app_hub in
      (
        sym (ap (λ (h : HubC). h.app_id) same),
        sym (ap (λ (h : HubC). h.name) same),
        sym (ap (λ (h : HubC). h.place) same),
      )

  place_device-AllDrawn :
      (apps : List Application) (d : Device) (devices : List Device) (o : Option HubC) (hub : HubC)
      (rest : List (Placed coords beside))
      → o ≡ some hub
      → Serves (by_network d.application_id apps) d.dev_eui (hubs_of apps) hub
      → AllDrawn apps (hubs_of apps) devices rest
      → AllDrawn apps (hubs_of apps) (d ∷ devices) (place_device coords beside o d rest)
  unfolding place_device
  place_device-AllDrawn apps d devices o hub rest e serves h =
      rw e (record { dev_eui = refl; place = refl; hub = serves }, h)

  place_devices-AllDrawn :
      (apps : List Application) (devices : List Device)
      → 0 < length apps
      → AllDrawn apps
          (hubs_of apps)
          devices
          (place_devices coords beside apps (hubs_of apps) devices)
  unfolding place_devices
  place_devices-AllDrawn apps [] p = tt
  place_devices-AllDrawn apps (d ∷ devices) p =
      let (hub, e) = hub_of-some apps d p in
      place_device-AllDrawn apps d devices _ hub _ e (hub_of-Serves apps d _ hub p refl e)
        (place_devices-AllDrawn apps devices p)

  -- If the active organization has a network, the map has a hub for each of its networks, and shows
  -- each device of the organization once, in the order of the list: under its own EUI, beside the hub
  -- that its line goes to. That hub has the id, the name and the place of the network of the device,
  -- where that is a network of the organization, and is the one that the hash of the device gives where
  -- it is not.
  pub update_map-connected :
      (configured : Option ℕ) (s : State)
      → 0 < length (org_apps coords beside s)
      → let drawing = update_map coords beside configured s in
        (map (λ (h : HubC). h.app_id) drawing.hubs
          ≡ map (λ (app : Application). some app.id) (org_apps coords beside s))
        × AllDrawn
            (org_apps coords beside s)
            drawing.hubs
            (org_devices coords beside s)
            drawing.devices
  unfolding update_map
  update_map-connected configured s p =
      let apps = org_apps coords beside s in
      let hubs = network_hubs s.active_org_id (gateway_count coords beside configured) apps p in
      rw hubs (ids apps, place_devices-AllDrawn apps (org_devices coords beside s) p)
