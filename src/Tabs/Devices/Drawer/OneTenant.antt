-- ===== src/Tabs/Devices/Drawer/OneTenant.antt =====
-- The network and the profile of a device that is saved.
use mathlib.Core.Path.{subst}
use mathlib.Core.List.{Mem, mem-cons_self, mem-cons_of_mem}
use chirpstack_simulator.Prelude.{
  Bool, true, false, not, ◌||◌, Option, none, some, List, [], ◌∷◌, Text, text_eq, text_eq_iff,
  text_eq_refl, truthy, trim, filter_by, map, ◌≡◌, refl, ap, sym, ◌∙◌, ◌⊎◌, inl, inr, Bool-cases,
  if◌then◌else◌,
}
use chirpstack_simulator.State.{State, Application, DeviceProfile}
use chirpstack_simulator.Tabs.Names.{find_net}
use chirpstack_simulator.OrgConfig.Boxes.{contains}
use chirpstack_simulator.Tabs.Devices.Drawer.{
  Details, Drawer, select_value, app_options, profile_options, populate_dev_edit_app_select,
  on_dev_edit_app_change, open_dev_drawer, close_dev_drawer, save_request, save_device, save_sent,
}

-- What the user does with the drawer: the selects take only what they offer.
pub data DrawerStep (s : State) : Drawer → Drawer → Type 0 where
  opens :
      {d : Drawer} (answer : Option Details) (dev_eui : Text)
      → DrawerStep s d (open_dev_drawer s answer dev_eui d)
  closes : {d : Drawer} → DrawerStep s d (close_dev_drawer d)
  names : {d : Drawer} (n : Text) → DrawerStep s d (record d { dev_edit_name = n })
  describes : {d : Drawer} (t : Text) → DrawerStep s d (record d { dev_edit_description = t })
  disables : {d : Drawer} (b : Bool) → DrawerStep s d (record d { dev_edit_is_disabled = b })
  moves :
      {d : Drawer} (app : Text)
      → contains app (app_options s) ≡ true
      → DrawerStep s d (on_dev_edit_app_change s [] (record d { dev_edit_app = app }))
  profiles :
      {d : Drawer} (p : Text)
      → contains p (profile_options s d.dev_edit_app) ≡ true
      → DrawerStep s d (record d { dev_edit_profile = p })
  saves : {d : Drawer} (accepts : Bool) → DrawerStep s d (save_device accepts d)

pub data DrawerReached (s : State) : Drawer → Type 0 where
  starts : (d : Drawer) → d.dev_edit_profile ≡ [] → DrawerReached s d
  then_step : {d e : Drawer} → DrawerReached s d → DrawerStep s d e → DrawerReached s e

-- The profile that is selected is one of those for the network, or none.
abbrev Offered : State → Drawer → Type 0
Offered s d =
    (d.dev_edit_profile ≡ [])
    ⊎ (contains d.dev_edit_profile (profile_options s d.dev_edit_app) ≡ true)

wanted_value :
    (o : Text) (os : List Text) (wanted : Text)
    → truthy wanted ≡ true
    → contains wanted (o ∷ os) ≡ true
    → select_value (o ∷ os) wanted ≡ wanted
unfolding select_value
wanted_value o os wanted e c = simp (e, c) refl

no_value :
    (o : Text) (os : List Text) (wanted : Text)
    → truthy wanted ≡ true
    → contains wanted (o ∷ os) ≡ false
    → select_value (o ∷ os) wanted ≡ []
unfolding select_value
no_value o os wanted e c = simp (e, c) refl

first_value :
    (o : Text) (os : List Text) (wanted : Text)
    → truthy wanted ≡ false
    → select_value (o ∷ os) wanted ≡ o
unfolding select_value
first_value o os wanted e = simp e refl

contains_first : (o : Text) (os : List Text) → contains o (o ∷ os) ≡ true
contains_first o os = simp (text_eq_refl o) refl

select_value_lem :
    (options : List Text) (wanted : Text)
    → (select_value options wanted ≡ []) ⊎ (contains (select_value options wanted) options ≡ true)
unfolding select_value
select_value_lem [] wanted = inl refl
select_value_lem (o ∷ os) wanted = elim (Bool-cases (truthy wanted)) [
  | inr e ↦ inr (
      subst (λ (v : Text). contains v (o ∷ os) ≡ true) (sym (first_value o os wanted e))
        (contains_first o os))
  | inl e ↦ elim (Bool-cases (contains wanted (o ∷ os))) [
    | inl c ↦
        inr
          (subst (λ (v : Text). contains v (o ∷ os) ≡ true) (sym (wanted_value o os wanted e c)) c)
    | inr c ↦ inl (no_value o os wanted e c)
  ]
]

sent_Offered :
    (s : State) (request : Option Details) (accepts : Bool) (d : Drawer)
    → Offered s d
    → Offered s (save_sent request accepts d)
unfolding save_sent close_dev_drawer
sent_Offered s none accepts d h = h
sent_Offered s (some r) true d h = h
sent_Offered s (some r) false d h = h

Offered-step : {s : State} {d e : Drawer} → DrawerStep s d e → Offered s d → Offered s e
unfolding open_dev_drawer populate_dev_edit_app_select on_dev_edit_app_change close_dev_drawer
    save_device
Offered-step {s} {d} (opens none dev_eui) h = h
Offered-step {s} {d} (opens (some dev) dev_eui) h =
    select_value_lem (profile_options s _) dev.device_profile_id
Offered-step {s} {d} closes h = h
Offered-step {s} {d} (names n) h = h
Offered-step {s} {d} (describes t) h = h
Offered-step {s} {d} (disables b) h = h
Offered-step {s} {d} (moves app c) h = select_value_lem (profile_options s app) []
Offered-step {s} {d} (profiles p c) h = inr c
Offered-step {s} {d} (saves accepts) h = sent_Offered s (save_request d) accepts d h

DrawerReached-Offered : {s : State} {d : Drawer} → DrawerReached s d → Offered s d
DrawerReached-Offered (starts d e) = inl e
DrawerReached-Offered (then_step r t) = Offered-step t (DrawerReached-Offered r)

-- A profile of the tenant, by its id.
found_profile :
    (tenant id : Text) (dps : List DeviceProfile)
    → contains id (
        map
          (λ (dp : DeviceProfile). dp.id)
          (filter_by (λ (dp : DeviceProfile). text_eq dp.tenant_id tenant) dps))
      ≡ true
    → (dp : DeviceProfile) × Mem dp dps × (dp.id ≡ id) × (dp.tenant_id ≡ tenant)
found_profile tenant id [] h = absurd cc
found_profile tenant id (dp ∷ dps) h = elim (Bool-cases (text_eq dp.tenant_id tenant)) [
  | inr e ↦
      let f = found_profile tenant id dps (simp e at h) in (f.0, mem-cons_of_mem dp (f.1), f.2, f.3)
  | inl e ↦ elim (Bool-cases (text_eq dp.id id)) [
    | inl t ↦ (dp, mem-cons_self, (text_eq_iff dp.id id).0 t, (text_eq_iff dp.tenant_id tenant).0 e)
    | inr t ↦
        let f = found_profile tenant id dps (simp (e, t) at h) in
        (f.0, mem-cons_of_mem dp (f.1), f.2, f.3)
  ]
]

options_inv :
    (o : Option Application) (dps : List DeviceProfile) (id : Text)
    → contains id (elim o [
      | none ↦ []
      | some app ↦
          map
            (λ (dp : DeviceProfile). dp.id)
            (filter_by (λ (dp : DeviceProfile). text_eq dp.tenant_id app.tenant_id) dps)
    ])
      ≡ true
    → (app : Application) × (dp : DeviceProfile) × (o ≡ some app)
      × Mem dp dps
      × (dp.id ≡ id)
      × (dp.tenant_id ≡ app.tenant_id)
options_inv none dps id h = absurd cc
options_inv (some app) dps id h =
    let f = found_profile app.tenant_id id dps h in (app, f.0, refl, f.1, f.2, f.3)

guard_inv :
    (a b c e : Bool) (x r : Details)
    → (if not a || not b || not c || not e then none else some x) ≡ some r
    → (e ≡ true) × (x ≡ r)
guard_inv true true true true x r h = (refl, cc h)
guard_inv true true true false x r h = absurd cc
guard_inv true true false e x r h = absurd cc
guard_inv true false c e x r h = absurd cc
guard_inv false b c e x r h = absurd cc

not_blank : (t : Text) → truthy t ≡ true → t ≡ [] → ⊥
not_blank [] h e = cc
not_blank (c ∷ t) h e = cc

-- However the drawer is opened, edited and closed, the request that a save sends names a network of the
-- page and a profile of the same tenant, both by the ids of entries in the lists, as long as the lists
-- stay as they are.
pub save_request-one_tenant :
    (s : State) (d : Drawer) (r : Details)
    → DrawerReached s d
    → save_request d ≡ some r
    → (app : Application) × (dp : DeviceProfile) × (find_net s r.application_id ≡ some app)
      × Mem dp s.dp_list
      × (dp.id ≡ r.device_profile_id)
      × (dp.tenant_id ≡ app.tenant_id)
unfolding save_request profile_options
save_request-one_tenant s d r reached h =
    let sent =
      guard_inv (truthy d.active_dev_eui) (truthy (trim d.dev_edit_name)) (truthy d.dev_edit_app)
        (truthy d.dev_edit_profile) _ r h in
    let offered = DrawerReached-Offered reached in
    let f =
      options_inv (find_net s d.dev_edit_app) s.dp_list d.dev_edit_profile
        (some_profile offered sent.0) in
    (
      f.0,
      f.1,
      ap (λ (q : Details). find_net s q.application_id) (sym (sent.1)) ∙ f.2,
      f.3,
      f.4 ∙ ap (λ (q : Details). q.device_profile_id) (sent.1),
      f.5,
    )
  where
    some_profile :
        Offered s d
        → truthy d.dev_edit_profile ≡ true
        → contains d.dev_edit_profile (profile_options s d.dev_edit_app) ≡ true
    some_profile (inl e) t = absurd (not_blank d.dev_edit_profile t e)
    some_profile (inr c) t = c
