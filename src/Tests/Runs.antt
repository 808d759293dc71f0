-- ===== src/Tests/Runs.antt =====
-- The theorems on the change of an interval and on the set-up wizard at concrete runs.
use chirpstack_simulator.Prelude.{
  All, ◌≡◌, true, codes, false, some, ℕ, ◌≤◌, [], ◌<◌, if◌then◌else◌, ltb, refl,
}
use chirpstack_simulator.Intervals.{
  idle, locked_after, Server, update_device_interval, after_status, restart, running,
  poll_until_idle, start_again, is_idle, stopping, is_live,
}
use chirpstack_simulator.Wizard.{
  step_valid, Wizard, next_bootstrap_step, show_bootstrap_wizard, count_of, edit_org,
  default_inputs, in_range, render_bootstrap_step,
}
use chirpstack_simulator.Wizard.Reach.{Reachable-PayloadOk}
use chirpstack_simulator.Intervals.Runs.{
  update_device_interval-unlocked, update_device_interval-has_start,
}
use chirpstack_simulator.Wizard.Events.{goes_on, opened, edits_org, PayloadOk, next, Reachable}
use chirpstack_simulator.Intervals.Traces.{has_start}

-- A server whose simulator is idle from the fourth poll on.
abbrev server : Server
server = record {
  saves = true;
  first_status = some (record { status = running; config = some (codes "c") });
  stops = true;
  polls = λ k. if ltb k 3 then some stopping else some idle;
}

update_device_interval-unlocked_example :
    locked_after false (update_device_interval server (codes "01") (codes "5m") []).actions ≡ false
update_device_interval-unlocked_example =
    update_device_interval-unlocked server (codes "01") (codes "5m") [] false

started : has_start (update_device_interval server (codes "01") (codes "5m") []).actions ≡ true
unfolding update_device_interval after_status restart poll_until_idle start_again is_idle is_live
started = refl

update_device_interval-has_start_example :
    (server.saves ≡ true)
    × (server.stops ≡ true)
    × ((k : ℕ) × (k < 30) × (server.polls k ≡ some idle))
update_device_interval-has_start_example =
    update_device_interval-has_start server (codes "01") (codes "5m") [] started

abbrev closed : Wizard
closed = record {
  current_step = 1;
  inputs = default_inputs;
  slots = [];
  next_disabled = false;
  visible = false;
  pending = [];
}

abbrev second_pane : Wizard
second_pane = next_bootstrap_step (edit_org (codes "acme") (show_bootstrap_wizard closed))

second_pane-Reachable : Reachable second_pane
unfolding show_bootstrap_wizard edit_org render_bootstrap_step
second_pane-Reachable =
    goes_on (goes_on (opened closed refl) (edits_org (codes "acme") refl)) (next refl)

Reachable-PayloadOk_example :
    All PayloadOk second_pane.pending
    × (second_pane.current_step ≤ 5
        → (j : ℕ) → 1 ≤ j
        → j < second_pane.current_step
        → step_valid j second_pane.inputs ≡ true)
Reachable-PayloadOk_example = Reachable-PayloadOk second_pane second_pane-Reachable

abbrev summary : Wizard
summary = record closed { current_step = 5; visible = true }

devices_valid : step_valid 4 summary.inputs ≡ true
unfolding step_valid count_of in_range
devices_valid = refl
