-- ===== src/Dashboard/Inputs/Guarded.antt =====
-- The inputs that a running simulation disables, over every sequence of polls, drawers and answers.
use chirpstack_simulator.Dashboard.Inputs.{
  FormPage, set_packet_loss, Text, simulate_checked, packet_loss_id, show_status, drawer_inputs,
  open_org_form, contains, Bool, begin_save, Input, update_form_inputs_state, Option, open_drawer,
  true, is_running, end_save, some, check_simulate, text_eq, Reached, false, starts, not,
  settings_inputs, polls, opens, truthy, codes, creates, checks, saves, saved,
  update_settings_input, update_drawer_input, not_simulated,
}
use chirpstack_simulator.Dashboard.Inputs.Updates.{
  Guarded, is_packet_loss, DisabledIf, is_setting, not-true, is_drawer_input, updated,
  updated_inputs, updated-setting, updated-drawer, updated-packet_loss,
}
use chirpstack_simulator.Prelude.{
  Text, Bool, ◌≢◌, Option, ◌≡◌, true, some, text_eq, false, All, refl, filter_by, Bool-cases,
  and_parts, inl, text_eq_iff, inr, ◌∙◌, if◌then◌else◌, truthy, none, codes, filter_by-map-kept,
  filter_by-map-All, map-All,
}
use chirpstack_simulator.OrgConfig.Boxes.{contains}

update-Guarded : (page : FormPage) → Guarded (update_form_inputs_state page)
unfolding update_form_inputs_state update_settings_input update_drawer_input
update-Guarded page =
    let is_sim_running = is_running page.current_status in
    let is_view = text_eq page.drawer_mode (codes "view") in
    let change = updated is_view is_sim_running page.simulate in
    rw (updated_inputs is_view is_sim_running page.simulate page.inputs) (record {
      settings =
          filter_by-map-All (λ (e : Input). e.disabled ≡ is_sim_running) is_setting change
            page.inputs (updated-setting is_view is_sim_running page.simulate);
      drawer =
          filter_by-map-All (DisabledIf is_sim_running) is_drawer_input change page.inputs
            (updated-drawer is_view is_sim_running page.simulate);
      loss =
          filter_by-map-All (DisabledIf (not_simulated page.simulate)) is_packet_loss change
            page.inputs (updated-packet_loss is_view is_sim_running page.simulate);
      boxes = map-All is_sim_running page.anomaly_boxes;
      save_general = refl;
    })

-- The packet loss is not among the other settings, nor in the drawer.
set_packet_loss-other :
    (checked : Bool) (e : Input)
    → text_eq e.id packet_loss_id ≡ false
    → (set_packet_loss checked e).disabled ≡ e.disabled
unfolding set_packet_loss
set_packet_loss-other checked e h = rw h refl

packet_loss_apart : contains packet_loss_id drawer_inputs ≢ true
unfolding packet_loss_id drawer_inputs
packet_loss_apart k = absurd cc

drawer_input-other :
    (id : Text) → contains id drawer_inputs ≡ true → text_eq id packet_loss_id ≡ false
drawer_input-other id h = elim (Bool-cases (text_eq id packet_loss_id)) [
  | inl k ↦
      let same : id ≡ packet_loss_id = (text_eq_iff id packet_loss_id).0 k in
      absurd (packet_loss_apart (rw same at h))
  | inr k ↦ k
]

set_packet_loss-loss :
    (checked : Bool) (e : Input)
    → is_packet_loss e ≡ true
    → DisabledIf (not checked) (set_packet_loss checked e)
unfolding set_packet_loss
set_packet_loss-loss true e h = refl
set_packet_loss-loss false e h = rw h refl

check-Guarded :
    (checked : Bool) (simulate : Option Bool) (page : FormPage)
    → Guarded page
    → Guarded (check_simulate checked simulate page)
unfolding set_packet_loss
check-Guarded checked none page h = h
check-Guarded checked (some before) page h = record {
  settings =
      filter_by-map-kept (λ (e : Input). e.disabled ≡ is_running page.current_status) is_setting
        (set_packet_loss checked) page.inputs (λ e. refl)
        (λ e listed k.
          let (_, other) =
            and_parts (contains e.id settings_inputs) (not (text_eq e.id packet_loss_id)) listed in
          set_packet_loss-other checked e (not-true (text_eq e.id packet_loss_id) other) ∙ k)
        h.settings;
  drawer =
      filter_by-map-kept (DisabledIf (is_running page.current_status)) is_drawer_input
        (set_packet_loss checked) page.inputs (λ e. refl)
        (λ e listed k. rw (drawer_input-other e.id listed) k) h.drawer;
  loss =
      filter_by-map-All (DisabledIf (not checked)) is_packet_loss (set_packet_loss checked)
        page.inputs (set_packet_loss-loss checked);
  boxes = h.boxes;
  save_general = h.save_general;
}

-- The mode of the drawer and its Save button stand apart.
beside-Guarded :
    (page : FormPage) (mode : Text) (save_disabled : Bool)
    → Guarded page
    → Guarded (record page { drawer_mode = mode; save_org_disabled = save_disabled })
beside-Guarded page mode save_disabled h = record {
  settings = h.settings;
  drawer = h.drawer;
  loss = h.loss;
  boxes = h.boxes;
  save_general = h.save_general;
}

-- In every sequence of polls, openings of the drawer, new organizations, answers with a configuration,
-- changes of the checkbox for lost packets and saves: the settings other than the packet loss, the boxes
-- of the anomalies and the Save button of the settings are disabled exactly while the last status is
-- running or starting; the inputs of the drawer are disabled while it is, and the packet loss is
-- disabled while the page has no such checkbox or it is not checked.
pub Reached-Guarded : (page : FormPage) → Reached page → Guarded page
unfolding show_status open_org_form open_drawer simulate_checked begin_save end_save
Reached-Guarded page (starts before) = update-Guarded before
Reached-Guarded page (polls {page = before} status r) =
    update-Guarded (record before { current_status = status })
Reached-Guarded page (opens {page = before} mode r) =
    update-Guarded (record before { drawer_mode = if truthy mode then mode else codes "edit" })
Reached-Guarded page (creates {page = before} r) =
    beside-Guarded before (codes "edit") before.save_org_disabled (Reached-Guarded before r)
Reached-Guarded page (checks {page = before} checked r) =
    check-Guarded checked before.simulate before (Reached-Guarded before r)
Reached-Guarded page (saves {page = before} r) =
    beside-Guarded before before.drawer_mode true (Reached-Guarded before r)
Reached-Guarded page (saved {page = before} r) =
    beside-Guarded before before.drawer_mode false (Reached-Guarded before r)

-- An answer that checks the box opens the packet loss even while the simulation runs.
pub packet_loss_opens :
    (page : FormPage) (before : Bool)
    → page.simulate ≡ some before
    → All
        (λ (e : Input). e.disabled ≡ false)
        (filter_by is_packet_loss (simulate_checked true page).inputs)
unfolding simulate_checked set_packet_loss
packet_loss_opens page before e = rw e (
    filter_by-map-All (λ (x : Input). x.disabled ≡ false) is_packet_loss (set_packet_loss true)
      page.inputs (λ x k. rw k refl))

-- A poll without a simulation enables the Save button while a save is under way.
pub save_opens :
    (page : FormPage) (status : Text)
    → is_running status ≡ false
    → (show_status status (begin_save page)).save_org_disabled ≡ false
unfolding show_status begin_save update_form_inputs_state
save_opens page status e = e
