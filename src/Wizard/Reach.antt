-- ===== src/Wizard/Reach.antt =====
-- The states that the set-up wizard can reach, and the requests that it can send.
use mathlib.Core.Path.{subst}
use chirpstack_simulator.Prelude.{
  Option, ℕ, ◌≡◌, some, truthy, ◌≤◌, ◌<◌, none, true, length, All, arith, refl, ap, ◌+◌, zero, ltb,
  trim, Bool-cases, if◌then◌else◌, ◌-◌, ◌%◌, ◌==◌, inl, inr, and_parts, List, Bool, ◌++◌, ◌∷◌,
  false,
}
use native.Mathlib.Nat.{mod-lt, zero-lt-suc}
use chirpstack_simulator.Wizard.{
  Wizard, show_bootstrap_wizard, Inputs, hide_bootstrap_wizard, in_range, step_valid,
  prev_bootstrap_step, next_bootstrap_step, render_bootstrap_step, go_to_step, count_of, slot_rows,
  submit_bootstrap, payload_of, count_or_zero, bootstrap_answered, Payload,
}
use Prim.Native.Nat.{ℕ, suc}
use chirpstack_simulator.Wizard.Events.{
  SlotOk, PayloadOk, Step, Reachable, Ok, prev, opened, next, goes_on, edits_org, edits_app,
  edits_dp, edits_dev, picks, answered, shows, hides, picks_scenario,
}
use chirpstack_simulator.Wizard.Edits.{
  Ok-edit_org, Ok-edit_app, Ok-edit_dp, Ok-edit_dev, Ok-picks, All-remove, Ok-choose_scenario,
}

length-slot_rows : (dp_count s_idx count : ℕ) → length (slot_rows dp_count s_idx count) ≡ count
unfolding slot_rows
length-slot_rows dp_count s_idx zero = refl
length-slot_rows dp_count s_idx (suc count) = ap suc (length-slot_rows dp_count (s_idx + 1) count)

-- The profile that a row selects is one of the profiles.
selected :
    (dp_count i : ℕ)
    → 1 ≤ dp_count
    → let p = if ltb 0 dp_count then i % dp_count + 1 else 0 in (1 ≤ p) × (p ≤ dp_count)
selected zero i h = absurd (omega arith)
selected (suc n) i h =
    let e : ltb 0 (suc n) ≡ true = ground arith in
    rw e (omega arith, omega (arith, mod-lt i (zero-lt-suc n)))

slot_rows-SlotOk :
    (dp_count s_idx count : ℕ)
    → 1 ≤ dp_count
    → All (SlotOk (some dp_count)) (slot_rows dp_count s_idx count)
unfolding slot_rows
slot_rows-SlotOk dp_count s_idx zero h = tt
slot_rows-SlotOk dp_count s_idx (suc count) h =
    (selected dp_count (s_idx - 1) h, slot_rows-SlotOk dp_count (s_idx + 1) count h)

rows_of_counts :
    (dp dev : Option ℕ)
    → in_range 50 dp ≡ true
    → in_range 100 dev ≡ true
    → (some (length (slot_rows (count_or_zero dp) 1 (count_or_zero dev))) ≡ dev)
      × All (SlotOk dp) (slot_rows (count_or_zero dp) 1 (count_or_zero dev))
unfolding in_range count_or_zero
rows_of_counts none dev h k = cc
rows_of_counts (some n) none h k = cc
rows_of_counts (some n) (some m) h k =
    (ap some (length-slot_rows n 1 m), slot_rows-SlotOk n 1 m (ground arith))

-- The test of each pane, as far as the request needs it.
app_valid :
    (inputs : Inputs)
    → step_valid 2 inputs ≡ true
    → (truthy (trim inputs.app_prefix) ≡ true) × (in_range 50 (count_of inputs.app_count) ≡ true)
unfolding step_valid
app_valid inputs h =
    and_parts (truthy (trim inputs.app_prefix)) (in_range 50 (count_of inputs.app_count)) h

dp_valid :
    (inputs : Inputs)
    → step_valid 3 inputs ≡ true
    → (truthy (trim inputs.dp_prefix) ≡ true) × (in_range 50 (count_of inputs.dp_count) ≡ true)
unfolding step_valid
dp_valid inputs h =
    and_parts (truthy (trim inputs.dp_prefix)) (in_range 50 (count_of inputs.dp_count)) h

dev_valid :
    (inputs : Inputs)
    → step_valid 4 inputs ≡ true
    → (truthy (trim inputs.dev_prefix) ≡ true) × (in_range 100 (count_of inputs.dev_count) ≡ true)
unfolding step_valid
dev_valid inputs h =
    and_parts (truthy (trim inputs.dev_prefix)) (in_range 100 (count_of inputs.dev_count)) h

org_valid : (inputs : Inputs) → step_valid 1 inputs ≡ true → truthy (trim inputs.org_name) ≡ true
unfolding step_valid
org_valid inputs h = h

pub Ok-show : (w : Wizard) → All PayloadOk w.pending → Ok (show_bootstrap_wizard w)
unfolding show_bootstrap_wizard render_bootstrap_step
Ok-show w h = record {
  passed = λ l j lo hi. absurd (omega arith);
  rows = λ e. absurd (omega arith);
  step_low = omega arith;
  step_high = omega arith;
  sent = h;
}

Ok-go_to_step :
    (k : ℕ) (w : Wizard)
    → 1 ≤ k
    → k ≤ 6
    → (k ≤ 5 → (j : ℕ) → 1 ≤ j → j < k → step_valid j w.inputs ≡ true)
    → All PayloadOk w.pending
    → Ok (go_to_step k w)
unfolding go_to_step render_bootstrap_step
Ok-go_to_step k w lo hi passed sent = record {
  passed = passed;
  rows = λ e.
      let dp = dp_valid w.inputs (passed (omega arith) 3 (omega arith) (omega arith)) in
      let dev = dev_valid w.inputs (passed (omega arith) 4 (omega arith) (omega arith)) in
      rw e (rows_of_counts (count_of w.inputs.dp_count) (count_of w.inputs.dev_count) dp.1 dev.1);
  step_low = lo;
  step_high = hi;
  sent = sent;
}

Ok-submit : (w : Wizard) → w.current_step ≡ 5 → Ok w → Ok (submit_bootstrap w)
unfolding submit_bootstrap payload_of
Ok-submit w e ok =
    let org = org_valid w.inputs (ok.passed (omega arith) 1 (omega arith) (omega arith)) in
    let app = app_valid w.inputs (ok.passed (omega arith) 2 (omega arith) (omega arith)) in
    let dp = dp_valid w.inputs (ok.passed (omega arith) 3 (omega arith) (omega arith)) in
    let dev = dev_valid w.inputs (ok.passed (omega arith) 4 (omega arith) (omega arith)) in
    record {
      passed = ok.passed;
      rows = ok.rows;
      step_low = ok.step_low;
      step_high = ok.step_high;
      sent = ((org, app.0, app.1, dp.0, dp.1, dev.0, dev.1, (ok.rows e).0, (ok.rows e).1), ok.sent);
    }

Ok-hide : (w : Wizard) → Ok w → Ok (hide_bootstrap_wizard w)
unfolding hide_bootstrap_wizard
Ok-hide w ok = record {
  passed = ok.passed;
  rows = ok.rows;
  step_low = ok.step_low;
  step_high = ok.step_high;
  sent = ok.sent;
}

one_more :
    (w : Wizard)
    → step_valid w.current_step w.inputs ≡ true
    → ((j : ℕ) → 1 ≤ j → j < w.current_step → step_valid j w.inputs ≡ true)
    → (j : ℕ) → 1 ≤ j
    → j < w.current_step + 1
    → step_valid j w.inputs ≡ true
one_more w v passed j lo hi = elim (Bool-cases (j == w.current_step)) [
  | inl e ↦ let same : j ≡ w.current_step = ground arith in rw same v
  | inr e ↦ passed j lo (ground arith)
]

Ok-next : (w : Wizard) → Ok w → Ok (next_bootstrap_step w)
unfolding next_bootstrap_step
Ok-next w ok = elim (Bool-cases (w.current_step == 6)) [
  | inl e ↦ simp e (Ok-hide w ok)
  | inr e6 ↦ elim (Bool-cases (step_valid w.current_step w.inputs)) [
    | inr n ↦ simp (e6, n) ok
    | inl v ↦ elim (Bool-cases (w.current_step == 5)) [
      | inl e ↦ simp (e6, v, e) (Ok-submit w (ground arith) ok)
      | inr e5 ↦
          simp (e6, v, e5)
            (Ok-go_to_step (w.current_step + 1) w (omega arith) (ground (arith, ok.step_high))
              (λ l. one_more w v (ok.passed (omega arith))) ok.sent)
    ]
  ]
]

Ok-prev : (w : Wizard) → 1 < w.current_step → w.current_step < 6 → Ok w → Ok (prev_bootstrap_step w)
unfolding prev_bootstrap_step
Ok-prev w lo hi ok =
    let e : ltb 1 w.current_step ≡ true = ground arith in
    simp e (
      Ok-go_to_step (w.current_step - 1) w (omega arith) (omega arith)
        (λ l j jl jh. ok.passed (omega arith) j jl (omega arith)) ok.sent)

Ok-answered :
    (w : Wizard) (front rest : List Payload) (payload : Payload) (ok : Bool)
    → w.pending ≡ front ++ payload ∷ rest
    → Ok w
    → Ok (bootstrap_answered ok (front ++ rest) w)
unfolding bootstrap_answered
Ok-answered w front rest payload false e h = record {
  passed = h.passed;
  rows = h.rows;
  step_low = h.step_low;
  step_high = h.step_high;
  sent = All-remove PayloadOk front rest payload (subst (All PayloadOk) e h.sent);
}
Ok-answered w front rest payload true e h =
    Ok-go_to_step 6 (record w { next_disabled = false; pending = front ++ rest }) (omega arith)
      (omega arith) (λ l j lo hi. absurd (omega arith))
      (All-remove PayloadOk front rest payload (subst (All PayloadOk) e h.sent))

Step-Ok : (v w : Wizard) → Step v w → Ok v → Ok w
Step-Ok v w shows ok = Ok-show v ok.sent
Step-Ok v w hides ok = Ok-hide v ok
Step-Ok v w (prev lo hi) ok = Ok-prev v lo hi ok
Step-Ok v w (next h) ok = Ok-next v ok
Step-Ok v w (edits_org org e) ok = Ok-edit_org v org e ok
Step-Ok v w (picks_scenario scenario e) ok = Ok-choose_scenario v scenario e ok
Step-Ok v w (edits_app prefix count e) ok = Ok-edit_app v prefix count e ok
Step-Ok v w (edits_dp prefix count e) ok = Ok-edit_dp v prefix count e ok
Step-Ok v w (edits_dev prefix count e) ok = Ok-edit_dev v prefix count e ok
Step-Ok v w (picks front rest slot new five e same p) ok = Ok-picks v front rest slot new e p ok
Step-Ok v w (answered front rest payload o e) ok = Ok-answered v front rest payload o e ok

Reachable-Ok : (w : Wizard) → Reachable w → Ok w
Reachable-Ok w (opened v e) = Ok-show v (rw e tt)
Reachable-Ok w (goes_on {v} r s) = Step-Ok v w s (Reachable-Ok v r)

-- In every reachable state, each request that waits for an answer has names that are not blank, counts
-- in their ranges, and one row for each device, whose profile is one of the profiles; and the panes
-- before the step that is shown have passed their tests, up to the summary.
pub Reachable-PayloadOk :
    (w : Wizard)
    → Reachable w
    → All PayloadOk w.pending
      × (w.current_step ≤ 5 → (j : ℕ) → 1 ≤ j → j < w.current_step → step_valid j w.inputs ≡ true)
Reachable-PayloadOk w r = let ok = Reachable-Ok w r in (ok.sent, ok.passed)
