-- ===== src/Tests/Panels.antt =====
-- The theorems on the log view, the switch of the passive mode and the inputs at concrete inputs.
use mathlib.Core.List.{reverse}
use chirpstack_simulator.SystemLogs.Adding as Adding
use chirpstack_simulator.SystemLogs.View as View
use chirpstack_simulator.Passive.Switch as Switch
use chirpstack_simulator.Dashboard.Inputs as Inputs
use chirpstack_simulator.Dashboard.Inputs.Guarded.{Reached-Guarded}
use chirpstack_simulator.SystemLogs.{get_logs, Store}
use chirpstack_simulator.Prelude.{
  codes, ℕ, ◌*◌, false, some, ◌+◌, [], map, true, ◌≡◌, ◌%◌, ◌∷◌, arith, All, ◌≤◌, refl, ◌<◌,
  filter_by,
}
use Prim.Native.Nat.{ℕ}
use chirpstack_simulator.Dashboard.Inputs.{
  FormPage, simulate_checked, show_status, update_form_inputs_state,
}
use chirpstack_simulator.Passive.Switch.{Switch, load_mode}
use chirpstack_simulator.Passive.Switch.Settled.{Settled}
use chirpstack_simulator.SystemLogs.View.{
  LogView, click_entry, folded, render_system_logs, render_entry, Unfolds, Reached-Unfolds,
}
use chirpstack_simulator.SystemLogs.Adding.{Database, add_indexed_db_log, LogDetails}
use chirpstack_simulator.SystemLogs.Monday.{
  last_monday, get_last_monday_midnight, days_since_monday, purge_of_day, purge_of_day-week,
}
use chirpstack_simulator.Tests.Data.{js}
use chirpstack_simulator.Tests.Pages.{blank_ui}
use chirpstack_simulator.SystemLogs.Queries.{wanted, from_time}
use chirpstack_simulator.SystemLogs.Order.{get_logs-reverse}
use chirpstack_simulator.Dashboard.Inputs.Updates.{Guarded}

abbrev empty_logs : Database
empty_logs = record { store = record { records = []; last_purge = 0 }; last_key = 0 }

abbrev one_log : Database
one_log =
    add_indexed_db_log (some 1) 50 (codes "Saved.") (codes "success") LogDetails.falsy empty_logs

abbrev two_logs : Database
two_logs =
    add_indexed_db_log (some 2) 70 (codes "Failed.") (codes "error")
      (LogDetails.value (codes "timeout")) one_log

two_logs_reached : Adding.Reached two_logs
unfolding add_indexed_db_log
two_logs_reached =
    Adding.Reached.then_event
      (Adding.Reached.then_event (Adding.Reached.starts 0)
        (Adding.Event.adds 1 50 (codes "Saved.") (codes "success") LogDetails.falsy (omega arith)))
      (Adding.Event.adds 2 70 (codes "Failed.") (codes "error") (LogDetails.value (codes "timeout"))
        (omega arith))

get_logs-reverse_example :
    get_logs js [] (codes "all") two_logs.store.records
    ≡ reverse (filter_by (wanted js [] (codes "all")) two_logs.store.records)
get_logs-reverse_example = get_logs-reverse js [] (codes "all") two_logs two_logs_reached

abbrev get_day : ℕ → ℕ
get_day day = (day + 4) % 7

abbrev midnight : ℕ → ℕ
midnight day = day * 86_400_000

abbrev old_store : Store
old_store = record { records = two_logs.store.records; last_purge = 0 }

purge_of_day-week_example :
    let purged = purge_of_day get_day midnight 100 8_640_000_001 old_store in
    let monday = last_monday get_day midnight 100 in
    (get_day monday ≡ 1)
    × (monday ≤ 100)
    × (100 < monday + 7)
    × (purged.records ≡ filter_by (from_time (midnight monday)) old_store.records)
    × (purge_of_day get_day midnight 101 8_726_400_005 purged ≡ purged)
unfolding last_monday get_last_monday_midnight days_since_monday
purge_of_day-week_example =
    purge_of_day-week get_day midnight 100 101 8_640_000_001 8_726_400_005 old_store (λ day. refl)
      (λ a b h. omega arith) (omega arith) (omega arith) (omega arith) (omega arith) (omega arith)

abbrev clicked : LogView
clicked = click_entry 0 (render_system_logs js [] (codes "all") two_logs.store.records)

Reached-Unfolds_example :
    (map folded clicked.container
      ≡ map render_entry (get_logs js [] (codes "all") two_logs.store.records))
    × All Unfolds clicked.container
Reached-Unfolds_example =
    Reached-Unfolds (get_logs js [] (codes "all") two_logs.store.records) clicked
      (View.Reached.clicks 0 (View.Reached.renders js [] (codes "all") two_logs.store.records refl))

abbrev resting : Switch
resting =
    load_mode (codes "hint") false
      (record { ui = blank_ui; sse_source = false; sources = 0; timers = 0; pending = [] })

abbrev form_page : FormPage
form_page = record {
  current_status = codes "idle";
  drawer_mode = codes "edit";
  simulate = some false;
  inputs =
      (record { id = codes "f_port"; disabled = false })
      ∷ (record { id = codes "packet_loss"; disabled = false })
      ∷ (record { id = codes "app_name"; disabled = false })
      ∷ [];
  anomaly_boxes = false ∷ [];
  save_org_disabled = false;
  save_org_shown = true;
  save_general_disabled = false;
}

Reached-Guarded_example :
    Guarded
      (simulate_checked true (show_status (codes "running") (update_form_inputs_state form_page)))
Reached-Guarded_example =
    Reached-Guarded
      (simulate_checked true (show_status (codes "running") (update_form_inputs_state form_page)))
      (Inputs.Reached.checks true
        (Inputs.Reached.polls (codes "running") (Inputs.Reached.starts form_page)))
