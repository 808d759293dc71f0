-- ===== src/Wizard/Edits.antt =====
-- The edits of the panes leave the set-up wizard as it should be.
use mathlib.Core.Path.{subst}
use chirpstack_simulator.Prelude.{
  ℕ, ◌≡◌, some, [], ◌≤◌, ◌<◌, length, false, All, Text, arith, refl, ap, List, ◌++◌, ◌∷◌, ◌==◌, ◌∙◌,
  sym, if◌then◌else◌, text_eq, codes,
}
use chirpstack_simulator.Wizard.{
  Wizard, Slot, Inputs, step_valid, edit_org, edit_app, count_of, edit_dp, edit_dev,
  choose_scenario,
}
use Prim.Native.Nat.{ℕ, suc}
use chirpstack_simulator.Wizard.Events.{SlotOk, Ok}

-- An edit of a pane leaves the tests of the panes before it as they are.
Ok-edit :
    (w : Wizard) (new : Inputs)
    → w.current_step < 5
    → ((j : ℕ) → 1 ≤ j → j < w.current_step → step_valid j new ≡ step_valid j w.inputs)
    → Ok w
    → Ok (record w { inputs = new })
Ok-edit w new l same ok = record {
  passed = λ h j lo hi. same j lo hi ∙ ok.passed h j lo hi;
  rows = λ e. absurd (omega arith);
  step_low = ok.step_low;
  step_high = ok.step_high;
  sent = ok.sent;
}

pub Ok-edit_org : (w : Wizard) (org : Text) → w.current_step ≡ 1 → Ok w → Ok (edit_org org w)
unfolding edit_org
Ok-edit_org w org e ok =
    Ok-edit w (record w.inputs { org_name = org }) (omega arith) (λ j lo hi. absurd (omega arith))
      ok

pub Ok-choose_scenario :
    (w : Wizard) (scenario : Text) → w.current_step ≡ 1 → Ok w → Ok (choose_scenario scenario w)
unfolding choose_scenario
Ok-choose_scenario w scenario e =
    Ok-edit w
      (record w.inputs {
        scenario = scenario;
        org_name = if text_eq scenario (codes "batman_oil") then codes "Raman-Petrol" else [];
      })
      (omega arith) (λ j lo hi. absurd (omega arith))

pub Ok-edit_app :
    (w : Wizard) (prefix count : Text) → w.current_step ≡ 2 → Ok w → Ok (edit_app prefix count w)
unfolding edit_app step_valid
Ok-edit_app w prefix count e ok =
    Ok-edit w (record w.inputs { app_prefix = prefix; app_count = count }) (omega arith)
      (λ j lo hi. let first : j ≡ 1 = omega arith in rw first refl) ok

pub Ok-edit_dp :
    (w : Wizard) (prefix count : Text) → w.current_step ≡ 3 → Ok w → Ok (edit_dp prefix count w)
unfolding edit_dp step_valid
Ok-edit_dp w prefix count e ok =
    Ok-edit w (record w.inputs { dp_prefix = prefix; dp_count = count }) (omega arith)
      (λ j lo hi. let other : (j == 3) ≡ false = ground arith in rw other refl) ok

pub Ok-edit_dev :
    (w : Wizard) (prefix count : Text) → w.current_step ≡ 4 → Ok w → Ok (edit_dev prefix count w)
unfolding edit_dev step_valid
Ok-edit_dev w prefix count e ok =
    Ok-edit w (record w.inputs { dev_prefix = prefix; dev_count = count }) (omega arith)
      (λ j lo hi. let other : (j == 4) ≡ false = ground arith in rw other refl) ok

All-replace :
    {A : Type 0} (P : A → Type 0) (front rest : List A) (old new : A)
    → P new
    → All P (front ++ old ∷ rest)
    → All P (front ++ new ∷ rest) × (length (front ++ new ∷ rest) ≡ length (front ++ old ∷ rest))
All-replace P [] rest old new p h = ((p, h.1), refl)
All-replace P (x ∷ front) rest old new p h =
    let more = All-replace P front rest old new p h.1 in ((h.0, more.0), ap suc more.1)

pub All-remove :
    {A : Type 0} (P : A → Type 0) (front rest : List A) (old : A)
    → All P (front ++ old ∷ rest)
    → All P (front ++ rest)
All-remove P [] rest old h = h.1
All-remove P (x ∷ front) rest old h = (h.0, All-remove P front rest old h.1)

pub Ok-picks :
    (w : Wizard) (front rest : List Slot) (slot new : Slot)
    → w.slots ≡ front ++ slot ∷ rest
    → SlotOk (count_of w.inputs.dp_count) new
    → Ok w
    → Ok (record w { slots = front ++ new ∷ rest })
Ok-picks w front rest slot new e p ok = record {
  passed = ok.passed;
  rows = λ five.
      let before : All (SlotOk (count_of w.inputs.dp_count)) (front ++ slot ∷ rest) =
        subst (All (SlotOk (count_of w.inputs.dp_count))) e (ok.rows five).1 in
      let after = All-replace (SlotOk (count_of w.inputs.dp_count)) front rest slot new p before in
      (ap some (after.1 ∙ ap length (sym e)) ∙ (ok.rows five).0, after.0);
  step_low = ok.step_low;
  step_high = ok.step_high;
  sent = ok.sent;
}
