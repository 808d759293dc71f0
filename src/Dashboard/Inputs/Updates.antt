-- ===== src/Dashboard/Inputs/Updates.antt =====
-- What updateFormInputsState leaves of the inputs, the boxes and the Save buttons.
use chirpstack_simulator.Dashboard.Inputs.{
  FormPage, Input, update_settings_input, Bool, contains, text_eq, settings_disabled, List,
  drawer_inputs, not, Option, packet_loss_id, true, is_running, settings_inputs, not_simulated, map,
  ◌∷◌, update_drawer_input,
}
use chirpstack_simulator.Prelude.{
  Bool, All, List, ◌≡◌, text_eq, ◌&&◌, true, Option, filter_by, Bool-cases, false, inl, inr, [],
  ◌||◌, sym, ap, text_eq_iff, and_parts, refl,
}
use chirpstack_simulator.OrgConfig.Boxes.{contains}

-- A setting apart from the packet loss, which has a condition of its own.
abbrev pub is_setting : Input → Bool
is_setting e = contains e.id settings_inputs && not (text_eq e.id packet_loss_id)

abbrev pub is_drawer_input : Input → Bool
is_drawer_input e = contains e.id drawer_inputs

abbrev pub is_packet_loss : Input → Bool
is_packet_loss e = text_eq e.id packet_loss_id

-- `disabled` at least while `b` holds.
abbrev pub DisabledIf : Bool → Input → Type 0
DisabledIf b e = (b && not e.disabled) ≡ false

pub record Guarded (page : FormPage) : Type 0 where
  pub settings :
      All
        (λ (e : Input). e.disabled ≡ is_running page.current_status)
        (filter_by is_setting page.inputs)
  pub drawer :
      All (DisabledIf (is_running page.current_status)) (filter_by is_drawer_input page.inputs)
  pub loss : All (DisabledIf (not_simulated page.simulate)) (filter_by is_packet_loss page.inputs)
  pub boxes : All (λ (box : Bool). box ≡ is_running page.current_status) page.anomaly_boxes
  pub save_general : page.save_general_disabled ≡ is_running page.current_status

pub not-true : (b : Bool) → not b ≡ true → b ≡ false
not-true false h = refl
not-true true h = sym h

least : (a b : Bool) → (b && not (a || b)) ≡ false
least a false = refl
least false true = refl
least true true = refl

or_true : (b : Bool) → not (b || true) ≡ false
or_true true = refl
or_true false = refl

-- What one update makes of an element.
abbrev pub updated : Bool → Bool → Option Bool → Input → Input
updated is_view is_sim_running simulate e =
    update_settings_input is_sim_running simulate
      (update_drawer_input (is_view || is_sim_running) e)

pub updated-setting :
    (is_view is_sim_running : Bool) (simulate : Option Bool) (e : Input)
    → is_setting e ≡ true
    → (updated is_view is_sim_running simulate e).disabled ≡ is_sim_running
unfolding update_settings_input update_drawer_input settings_disabled
updated-setting is_view is_sim_running simulate e h =
    let (listed, other) =
      and_parts (contains e.id settings_inputs) (not (text_eq e.id packet_loss_id)) h in
    let k : text_eq e.id packet_loss_id ≡ false = not-true (text_eq e.id packet_loss_id) other in
    rw (listed, k) refl

pub updated-packet_loss :
    (is_view is_sim_running : Bool) (simulate : Option Bool) (e : Input)
    → is_packet_loss e ≡ true
    → DisabledIf (not_simulated simulate) (updated is_view is_sim_running simulate e)
unfolding update_settings_input update_drawer_input settings_disabled settings_inputs packet_loss_id
updated-packet_loss is_view is_sim_running simulate e h =
    let same : e.id ≡ packet_loss_id = (text_eq_iff e.id packet_loss_id).0 h in
    rw same (least is_sim_running (not_simulated simulate))

pub updated-drawer :
    (is_view is_sim_running : Bool) (simulate : Option Bool) (e : Input)
    → is_drawer_input e ≡ true
    → DisabledIf is_sim_running (updated is_view is_sim_running simulate e)
unfolding update_settings_input update_drawer_input settings_disabled
updated-drawer is_view false simulate e h = refl
updated-drawer is_view true simulate e h = elim (Bool-cases (contains e.id settings_inputs)) [
  | inl k ↦ elim (Bool-cases (text_eq e.id packet_loss_id)) [
    | inl l ↦ rw (k, l) refl
    | inr l ↦ rw (k, l) refl
  ]
  | inr k ↦ rw (k, h) (or_true is_view)
]

pub updated_inputs :
    (is_view is_sim_running : Bool) (simulate : Option Bool) (es : List Input)
    → map
        (update_settings_input is_sim_running simulate)
        (map (update_drawer_input (is_view || is_sim_running)) es)
      ≡ map (updated is_view is_sim_running simulate) es
updated_inputs is_view is_sim_running simulate [] = refl
updated_inputs is_view is_sim_running simulate (e ∷ es) =
    ap (λ l. updated is_view is_sim_running simulate e ∷ l)
      (updated_inputs is_view is_sim_running simulate es)
