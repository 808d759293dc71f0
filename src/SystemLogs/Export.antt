-- ===== src/SystemLogs/Export.antt =====
-- The file that exportLogs of internal/api/frontend/js/tabs/system-logs.js makes of what was logged.
use mathlib.Core.List.{reverse, List}
use chirpstack_simulator.SystemLogs.Adding.{Database, Reached}
use chirpstack_simulator.SystemLogs.View.{export_logs, export_line, join_lines}
use chirpstack_simulator.SystemLogs.Order.{get_logs-reverse}
use chirpstack_simulator.State.{Engine}
use chirpstack_simulator.Prelude.{
  ℕ, List, Text, filter_by, ◌≡◌, if◌then◌else◌, length, [], ◌==◌, codes, none, filter_by-true, some,
  map, refl,
}
use Prim.Native.Nat.{ℕ}
use chirpstack_simulator.SystemLogs.{Log}
use chirpstack_simulator.SystemLogs.Queries.{wanted}

all_wanted :
    (js : Engine) (records : List Log) → filter_by (wanted js [] (codes "all")) records ≡ records
all_wanted js records = filter_by-true records

-- After every sequence of changes of the database the exported file has a line for each record, in the
-- reverse of the order in which they were added; without a record there is no file.
pub export_logs-reverse :
    (js : Engine) (iso : ℕ → Text) (db : Database)
    → Reached db
    → export_logs js iso db.store.records ≡ (
        if length (reverse db.store.records) == 0
        then none
        else some (join_lines (map (export_line js iso) (reverse db.store.records))))
unfolding export_logs
export_logs-reverse js iso db r =
    rw (get_logs-reverse js [] (codes "all") db r, all_wanted js db.store.records) refl
