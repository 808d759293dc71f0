-- ===== src/Tabs/Fetching/Active.antt =====
-- The selected organization, and what a failed load leaves on the screen.
use mathlib.Core.Path.{subst}
use chirpstack_simulator.Prelude.{
  true, false, Option, none, some, List, [], ◌∷◌, Text, text_eq, text_eq_refl, truthy, find_by,
  if◌then◌else◌, ◌≡◌, refl, ap, sym, ◌∙◌, ◌⊎◌, inl, inr, Bool-cases,
}
use chirpstack_simulator.Table.Defs.{Screen}
use chirpstack_simulator.State.{Engine, State, Organization}
use chirpstack_simulator.Tabs.Names.{find_org}
use chirpstack_simulator.Tabs.Orgs.{OrgRow, apply_filters_and_render}
use chirpstack_simulator.Tabs.Fetching.{
  select_default_org_if_none, fetch_organizations, delete_organization,
}

abbrev pub org_of : List Organization → Text → Option Organization
org_of orgs id = find_by (λ (o : Organization). text_eq o.id id) orgs

-- An organization of the list is selected.
abbrev pub Selects : List Organization → Text → Type 0
Selects orgs id = (o : Organization) × (org_of orgs id ≡ some o)

Selects-first : (o : Organization) (orgs : List Organization) → Selects (o ∷ orgs) o.id
Selects-first o orgs = (o, simp (text_eq_refl o.id) refl)

default_id :
    (o : Organization) (orgs : List Organization) (s : State)
    → truthy s.active_org_id ≡ false
    → (select_default_org_if_none (o ∷ orgs) s).active_org_id ≡ o.id
unfolding select_default_org_if_none
default_id o orgs s e = simp e refl

kept_id :
    (orgs : List Organization) (s : State)
    → truthy s.active_org_id ≡ true
    → (select_default_org_if_none orgs s).active_org_id ≡ s.active_org_id
unfolding select_default_org_if_none
kept_id [] s e = refl
kept_id (o ∷ orgs) s e = simp e refl

select_none :
    (orgs : List Organization) (s : State)
    → truthy s.active_org_id ≡ false
    → (orgs ≡ []) ⊎ Selects orgs (select_default_org_if_none orgs s).active_org_id
select_none [] s e = inl refl
select_none (o ∷ orgs) s e =
    inr (subst (Selects (o ∷ orgs)) (sym (default_id o orgs s e)) (Selects-first o orgs))

-- After the default is selected.
select_lem :
    (orgs : List Organization) (s : State)
    → (truthy s.active_org_id ≡ false) ⊎ Selects orgs s.active_org_id
    → (orgs ≡ []) ⊎ Selects orgs (select_default_org_if_none orgs s).active_org_id
select_lem orgs s (inl e) = select_none orgs s e
select_lem orgs s (inr h) = elim (Bool-cases (truthy s.active_org_id)) [
  | inl e ↦ inr (subst (Selects orgs) (sym (kept_id orgs s e)) h)
  | inr e ↦ select_none orgs s e
]

-- The selected id before the list is loaded again.
cleared_id :
    (orgs left : List Organization) (active id : Text)
    → (truthy active ≡ false) ⊎ Selects orgs active
    → ((other : Text) → text_eq other id ≡ false → org_of left other ≡ org_of orgs other)
    → (truthy (if text_eq active id then [] else active) ≡ false)
      ⊎ Selects left (if text_eq active id then [] else active)
cleared_id orgs left active id h kept = elim (Bool-cases (text_eq active id)) [
  | inl e ↦ inl (rw e refl)
  | inr e ↦ rw e (still h e)
]
  where
    still :
        (truthy active ≡ false) ⊎ Selects orgs active
        → text_eq active id ≡ false
        → (truthy active ≡ false) ⊎ Selects left active
    still (inl none_selected) e = inl none_selected
    still (inr (o, found)) e = inr (o, kept active e ∙ found)

module _ (js : Engine) where
  fetch_lem :
      (orgs : List Organization) (s : State)
      → (truthy s.active_org_id ≡ false) ⊎ Selects orgs s.active_org_id
      → (orgs ≡ []) ⊎ Selects orgs (fetch_organizations js (some orgs) s).0.active_org_id
  unfolding fetch_organizations apply_filters_and_render
  fetch_lem orgs s h =
      select_lem orgs (apply_filters_and_render js (record s { organizations = orgs })).0 h

  -- If an organization of the page or none is selected, and an organization is deleted and the list
  -- loaded again, then an organization of the new list is selected, unless it is empty: whether the
  -- deleted one was selected or not, for a server that leaves the others as they were.
  pub delete_organization-Selects :
      (s : State) (id : Text) (org : Organization) (left : List Organization)
      → find_org s id ≡ some org
      → (truthy s.active_org_id ≡ false) ⊎ Selects s.organizations s.active_org_id
      → ((other : Text)
          → text_eq other id ≡ false
          → org_of left other ≡ org_of s.organizations other)
      → (r : State × Screen OrgRow) × (delete_organization js true true (some left) id s ≡ some r)
        × ((left ≡ []) ⊎ Selects left r.0.active_org_id)
  unfolding delete_organization
  delete_organization-Selects s id org left found active kept =
      let cleared = record s {
        active_org_id = if text_eq s.active_org_id id then [] else s.active_org_id;
      } in
      (
        fetch_organizations js (some left) cleared,
        ap
            (λ (o : Option Organization). elim o as (λ x. Option (State × Screen OrgRow)) [
              | none ↦ none
              | some org ↦ some (fetch_organizations js (some left) cleared)
            ])
            found,
        fetch_lem left cleared (cleared_id s.organizations left s.active_org_id id active kept),
      )
