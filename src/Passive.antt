-- ===== src/Passive.antt =====
-- internal/api/frontend/js/passive-sync.js: the stream of topology changes, and the requests by which
-- the page learns of pending changes and dismisses them. What the server and the timers do is an event.
pub mod Stream
pub mod Settling
pub mod Locks
pub mod Switch
use chirpstack_simulator.Prelude.{◌-◌, Bool, ◌+◌, if◌then◌else◌, false, not, ℕ, true}

-- The stream. `sources` counts the EventSource objects that are not closed, `sse_source` says whether
-- the variable `sseSource` holds one, and `timers` counts the reconnects that are scheduled.
pub record EventStream : Type 0 where
  pub passive_mode : Bool
  pub sse_source : Bool
  pub sources : ℕ
  pub timers : ℕ

unfoldable pub connect_topology_events : EventStream → EventStream
connect_topology_events s =
    if s.sse_source then s else record s { sse_source = true; sources = s.sources + 1 }

-- `sseSource.onerror`
unfoldable pub on_error : EventStream → EventStream
on_error s =
    let closed = record s { sse_source = false; sources = s.sources - 1 } in
    if s.passive_mode then record closed { timers = s.timers + 1 } else closed

unfoldable pub disconnect_topology_events : EventStream → EventStream
disconnect_topology_events s =
    if s.sse_source then record s { sse_source = false; sources = s.sources - 1 } else s

-- A scheduled reconnect is due.
unfoldable pub timer_fires : EventStream → EventStream
timer_fires s = connect_topology_events (record s { timers = s.timers - 1 })

-- The toggle of the settings, once the server has accepted the change, and loadPassiveModeConfig.
unfoldable pub toggle_passive : Bool → EventStream → EventStream
toggle_passive enabled s =
    let applied = record s { passive_mode = enabled } in
    if enabled then connect_topology_events applied else disconnect_topology_events applied

unfoldable pub load_passive_mode_config : Bool → EventStream → EventStream
load_passive_mode_config enabled s =
    let applied = record s { passive_mode = enabled } in
    if enabled then connect_topology_events applied else applied

-- The changes. `server_pending` is whether the server has any, with a summary that is not empty;
-- `statuses` and `dismissals` count the requests that it has not answered, and `modal` says whether the
-- page asks for a restart.
pub record Sync : Type 0 where
  pub is_running : Bool
  pub server_pending : Bool
  pub pending_topology_change : Bool
  pub modal : Bool
  pub statuses : ℕ
  pub dismissals : ℕ

-- refreshSyncStatus up to its `await`.
unfoldable pub refresh_sync_status : Sync → Sync
refresh_sync_status s = record s { statuses = s.statuses + 1 }

-- dismissChanges up to its `await`.
unfoldable pub dismiss_changes : Sync → Sync
dismiss_changes s = record s { pending_topology_change = false; dismissals = s.dismissals + 1 }

-- onTopologyChange: a running simulation makes the page ask, and without one the page dismisses the
-- changes and refreshes.
unfoldable pub on_topology_change : Sync → Sync
unfolding refresh_sync_status dismiss_changes
on_topology_change s =
    if s.is_running then record s { modal = true } else refresh_sync_status (dismiss_changes s)

-- refreshSyncStatus from the answer on: `false` is an answer that is not ok.
unfoldable pub status_answered : Bool → Sync → Sync
status_answered ok s =
    let answered = record s { statuses = s.statuses - 1 } in
    if not ok
    then answered
    else (let noted = record answered { pending_topology_change = s.server_pending } in
        if s.server_pending then on_topology_change noted else noted)

-- dismissChanges from the answer on: the server has taken the dismissal, or refused it.
unfoldable pub dismiss_answered : Bool → Sync → Sync
unfolding refresh_sync_status
dismiss_answered taken s = refresh_sync_status (record s {
  dismissals = s.dismissals - 1;
  server_pending = if taken then false else s.server_pending;
})
