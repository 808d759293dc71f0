-- ===== src/Wizard/Events.antt =====
-- The events of the set-up wizard, the states that they reach, and what holds in them.
use chirpstack_simulator.Prelude.{
  Option, ℕ, ◌≡◌, some, truthy, [], ◌≤◌, ◌<◌, none, true, length, false, All, Text, List, ◌++◌, ◌∷◌,
  Bool,
}
use chirpstack_simulator.Wizard.{
  Wizard, show_bootstrap_wizard, Payload, Slot, hide_bootstrap_wizard, in_range, step_valid,
  prev_bootstrap_step, next_bootstrap_step, edit_org, edit_app, count_of, edit_dp, edit_dev,
  bootstrap_answered, choose_scenario,
}
use Prim.Native.Nat.{ℕ}

-- What a request must be for the server to build what the user asked for.
abbrev pub SlotOk : Option ℕ → Slot → Type 0
SlotOk none slot = ⊥
SlotOk (some dp_count) slot = (1 ≤ slot.profile_index) × (slot.profile_index ≤ dp_count)

abbrev pub PayloadOk : Payload → Type 0
PayloadOk payload =
    (truthy payload.org_name ≡ true)
    × (truthy payload.app_prefix ≡ true)
    × (in_range 50 payload.app_count ≡ true)
    × (truthy payload.dp_prefix ≡ true)
    × (in_range 50 payload.dp_count ≡ true)
    × (truthy payload.dev_prefix ≡ true)
    × (in_range 100 payload.dev_count ≡ true)
    × (some (length payload.devices_config) ≡ payload.dev_count)
    × All (SlotOk payload.dp_count) payload.devices_config

-- The events, and what they make of the wizard.
pub data Step : Wizard → Wizard → Type 0 where
  shows : {w : Wizard} → Step w (show_bootstrap_wizard w)
  hides : {w : Wizard} → Step w (hide_bootstrap_wizard w)
  prev : {w : Wizard} → 1 < w.current_step → w.current_step < 6 → Step w (prev_bootstrap_step w)
  next : {w : Wizard} → w.next_disabled ≡ false → Step w (next_bootstrap_step w)
  edits_org : {w : Wizard} (org : Text) → w.current_step ≡ 1 → Step w (edit_org org w)
  picks_scenario :
      {w : Wizard} (scenario : Text) → w.current_step ≡ 1 → Step w (choose_scenario scenario w)
  edits_app :
      {w : Wizard} (prefix count : Text) → w.current_step ≡ 2 → Step w (edit_app prefix count w)
  edits_dp :
      {w : Wizard} (prefix count : Text) → w.current_step ≡ 3 → Step w (edit_dp prefix count w)
  edits_dev :
      {w : Wizard} (prefix count : Text) → w.current_step ≡ 4 → Step w (edit_dev prefix count w)
  picks :
      {w : Wizard} (front rest : List Slot) (slot new : Slot)
      → w.current_step ≡ 5
      → w.slots ≡ front ++ slot ∷ rest
      → new.device_index ≡ slot.device_index
      → SlotOk (count_of w.inputs.dp_count) new
      → Step w (record w { slots = front ++ new ∷ rest })
  answered :
      {w : Wizard} (front rest : List Payload) (payload : Payload) (ok : Bool)
      → w.pending ≡ front ++ payload ∷ rest
      → Step w (bootstrap_answered ok (front ++ rest) w)

pub data Reachable : Wizard → Type 0 where
  opened : (w : Wizard) → w.pending ≡ [] → Reachable (show_bootstrap_wizard w)
  goes_on : {v w : Wizard} → Reachable v → Step v w → Reachable w

-- What holds in every state: the panes before the step that is shown have passed their tests, and the
-- rows of the summary fit the counts.
pub record Ok (w : Wizard) : Type 0 where
  pub passed :
      w.current_step ≤ 5 → (j : ℕ) → 1 ≤ j → j < w.current_step → step_valid j w.inputs ≡ true
  pub rows :
      w.current_step ≡ 5
      → (some (length w.slots) ≡ count_of w.inputs.dev_count)
        × All (SlotOk (count_of w.inputs.dp_count)) w.slots
  pub step_low : 1 ≤ w.current_step
  pub step_high : w.current_step ≤ 6
  pub sent : All PayloadOk w.pending
