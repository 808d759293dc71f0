-- ===== src/Tests/Wizards.antt =====
-- The theorems on the shorter wizards and on the stream of topology changes at concrete runs.
use chirpstack_simulator.Prelude.{All, ◌≡◌, true, false, codes, [], ◌+◌, ◌*◌, refl, arith}
use chirpstack_simulator.Forms.{Form, show_modal, next_step, edit, check_validation, render_step}
use chirpstack_simulator.Forms.Events.{Reachable, goes_on, next, opened, edits}
use chirpstack_simulator.Forms.Calm.{Reachable-RequestOk}
use chirpstack_simulator.Forms.Network.{
  net_wizard, net_panes, net_valid, NetRequestOk, tenant, name,
}
use chirpstack_simulator.Forms.Device.{DevInputs}
use chirpstack_simulator.Passive.{
  EventStream, connect_topology_events, on_error, timer_fires, toggle_passive, Sync,
  status_answered, dismiss_answered,
}
use chirpstack_simulator.Passive.Stream.{
  errors, fires, toggles, Reached, starts, then_event, count_of, Reached-one,
}
use chirpstack_simulator.Passive.Settling.{
  status, dismissal, Run, done, more, outstanding, Run-outstanding, Run-unsettled,
}
use chirpstack_simulator.Wizard.Events.{goes_on}
use chirpstack_simulator.Themes.Toggle.Flips.{edits}

abbrev shut : Form net_wizard
shut = record {
  current_step = 1;
  inputs = net_wizard.cleared;
  next_disabled = true;
  visible = false;
  pending = [];
}

abbrev with_tenant : Form net_wizard
with_tenant =
    edit net_wizard true (record { tenant = codes "t1"; name = []; prefix = [] })
      (show_modal net_wizard shut)

abbrev with_name : Form net_wizard
with_name =
    edit net_wizard true (record { tenant = codes "t1"; name = codes "net"; prefix = [] })
      (next_step net_wizard with_tenant)

abbrev at_summary : Form net_wizard
at_summary = next_step net_wizard with_name

at_summary-Reachable : Reachable net_wizard net_panes at_summary
unfolding show_modal next_step edit check_validation render_step net_valid
at_summary-Reachable =
    goes_on
      (goes_on
        (goes_on (goes_on (opened shut refl) (edits _ true (tenant (codes "t1") refl))) (next refl))
        (edits _ true (name (codes "net") refl)))
      (next refl)

shows_summary : (at_summary.current_step ≡ 3) × (at_summary.next_disabled ≡ false)
unfolding show_modal next_step edit check_validation render_step net_valid
shows_summary = (refl, refl)

sent-Reachable : Reachable net_wizard net_panes (next_step net_wizard at_summary)
sent-Reachable = goes_on at_summary-Reachable (next shows_summary.1)

Reachable-RequestOk_example : All NetRequestOk (next_step net_wizard at_summary).pending
Reachable-RequestOk_example =
    Reachable-RequestOk net_wizard net_panes (next_step net_wizard at_summary) sent-Reachable

abbrev device_inputs : DevInputs
device_inputs = record {
  tenant = codes "t1";
  app = codes "a1";
  eui = codes "0102030405060708";
  name = codes "meter";
  profile = codes "p1";
  desc = [];
}

abbrev quiet : EventStream
quiet = record { passive_mode = false; sse_source = false; sources = 0; timers = 0 }

abbrev broken : EventStream
broken = on_error (toggle_passive true quiet)

reconnected-Reached : Reached (timer_fires broken)
unfolding toggle_passive on_error connect_topology_events
reconnected-Reached =
    then_event (then_event (then_event (starts quiet refl refl) (toggles true)) (errors refl))
      (fires (omega arith))

Reached-one_example : (timer_fires broken).sources ≡ count_of (timer_fires broken).sse_source
Reached-one_example = Reached-one reconnected-Reached

abbrev two_open : Sync
two_open = record {
  is_running = false;
  server_pending = false;
  pending_topology_change = true;
  modal = false;
  statuses = 1;
  dismissals = 1;
}

Run-outstanding_example :
    2 + outstanding (dismiss_answered true (status_answered true two_open)) ≡ outstanding two_open
unfolding status_answered
Run-outstanding_example =
    Run-outstanding {s = two_open}
      (more (status true (omega arith)) (more (dismissal true (omega arith)) done)) refl

Run-unsettled_example :
    (t : Sync) × Run (3 * 2) (record two_open { server_pending = true }) t
    × (t.statuses ≡ two_open.statuses + 3)
Run-unsettled_example =
    Run-unsettled 3 (record two_open { server_pending = true }) refl refl (omega arith)
