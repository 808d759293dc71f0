-- ===== src/Tabs/FilterSelects/Status.antt =====
-- The selects of the device status and the filters that the tables read.
use chirpstack_simulator.OrgConfig.Boxes.{contains}
use chirpstack_simulator.State.{State}
use chirpstack_simulator.Tabs.FilterSelects.{
  Select, StatusSelects, StatusFilters, org_options, app_options, assign, populate_status_filters,
  refill_status, on_status_org_change, on_status_app_change, [], Text,
}
use chirpstack_simulator.Prelude.{◌≡◌, Text, [], true, ◌∷◌, ap, ◌∙◌, refl, sym, false}
use chirpstack_simulator.Tabs.FilterSelects.Values.{assign-known}

module _ (s : State) where
  -- The user chooses what a select offers; the answers come while the lists stay as they are.
  pub data Event : StatusFilters → StatusFilters → Type 0 where
    refills : {f : StatusFilters} → Event f (refill_status s f)
    org_chosen :
        {f : StatusFilters} (value : Text)
        → contains value (org_options s) ≡ true
        → Event f (on_status_org_change s value f)
    app_chosen :
        {f : StatusFilters} (value : Text)
        → contains value f.selects.app.options ≡ true
        → Event f (on_status_app_change value f)

  abbrev pub blank : Select
  blank = record { options = [] ∷ []; value = [] }

  abbrev pub start : StatusFilters
  start = refill_status s (record {
    selects = record { org = blank; app = blank };
    dev_status_org_filter = [];
    dev_status_app_filter = [];
    dev_status_page = 1;
    gw_status_page = 1;
  })

  pub data Reached : StatusFilters → Type 0 where
    starts : Reached start
    then_event : {f g : StatusFilters} → Reached f → Event f g → Reached g

  pub record InStep (f : StatusFilters) : Type 0 where
    pub org : f.selects.org.value ≡ f.dev_status_org_filter
    pub app : f.selects.app.value ≡ f.dev_status_app_filter
    pub org_offered : contains f.selects.org.value (org_options s) ≡ true
    pub offers : f.selects.app.options ≡ app_options s f.selects.org.value
    pub app_offered : contains f.selects.app.value (app_options s f.selects.org.value) ≡ true

  populated :
      (selects : StatusSelects) (org app : Text)
      → selects.org.value ≡ org
      → selects.app.value ≡ app
      → contains org (org_options s) ≡ true
      → contains app (app_options s org) ≡ true
      → let next = populate_status_filters s selects in
        (next.org.value ≡ org)
        × (next.app.value ≡ app)
        × (next.app.options ≡ app_options s next.org.value)
  unfolding populate_status_filters
  populated selects org app e a o k =
      let known : (assign (org_options s) selects.org.value).value ≡ org =
        ap (λ (v : Text). (assign (org_options s) v).value) e
        ∙ assign-known (org_options s) org o in
      (known, rw (known, a) (assign-known (app_options s org) app k), unfold assign in refl)

  all_offered : contains [] (org_options s) ≡ true
  unfolding org_options
  all_offered = refl

  all_apps_offered : (org : Text) → contains [] (app_options s org) ≡ true
  unfolding app_options
  all_apps_offered org = refl

  -- Filling the selects for filters that are offered.
  refill-InStep :
      (f : StatusFilters)
      → f.selects.org.value ≡ f.dev_status_org_filter
      → f.selects.app.value ≡ f.dev_status_app_filter
      → contains f.dev_status_org_filter (org_options s) ≡ true
      → contains f.dev_status_app_filter (app_options s f.dev_status_org_filter) ≡ true
      → InStep (refill_status s f)
  unfolding refill_status
  refill-InStep f e a o k =
      let (org, app, offers) =
        populated f.selects f.dev_status_org_filter f.dev_status_app_filter e a o k in
      record {
        org = org;
        app = app;
        org_offered = ap (λ (v : Text). contains v (org_options s)) org ∙ o;
        offers = offers;
        app_offered = (λ i. contains (app i) (app_options s (org i))) ∙ k;
      }

  Event-InStep : {f g : StatusFilters} → Event f g → InStep f → InStep g
  Event-InStep {f} refills v =
      refill-InStep f v.org v.app
        (ap (λ (x : Text). contains x (org_options s)) (sym v.org) ∙ v.org_offered)
        ((λ i. contains (sym v.app i) (app_options s (sym v.org i))) ∙ v.app_offered)
  Event-InStep {f} (org_chosen value o) v =
      unfold on_status_org_change in refill-InStep _ refl refl o (all_apps_offered value)
  Event-InStep {f} (app_chosen value o) v =
      unfold on_status_app_change in
      record {
        org = v.org;
        app = refl;
        org_offered = v.org_offered;
        offers = v.offers;
        app_offered = ap (contains value) (sym v.offers) ∙ o;
      }

  -- While the lists of organizations and networks stay as they are: whatever the user chooses and
  -- however often the answers fill the selects again, both selects show the filters that the tables
  -- read, and the networks that are offered, the chosen one among them, are those of the chosen
  -- organization.
  pub Reached-InStep : {f : StatusFilters} → Reached f → InStep f
  Reached-InStep starts = refill-InStep _ refl refl all_offered (all_apps_offered [])
  Reached-InStep (then_event r e) = Event-InStep e (Reached-InStep r)

-- If the organization of the filter is gone when the selects are filled, the first shows all, and the
-- filter stays in force.
pub refill_status_stale :
    (s : State) (f : StatusFilters)
    → contains f.selects.org.value (org_options s) ≡ false
    → ((refill_status s f).selects.org.value ≡ [])
      × ((refill_status s f).dev_status_org_filter ≡ f.dev_status_org_filter)
unfolding refill_status populate_status_filters assign
refill_status_stale s f e = rw e (refl, refl)
