-- ===== src/Passive/Stream.antt =====
-- The connections of the stream.
use chirpstack_simulator.Prelude.{◌≡◌, Bool, true, ℕ, arith, false, refl, ◌<◌, if◌then◌else◌, ◌-◌}
use chirpstack_simulator.Passive.{
  EventStream, timer_fires, Bool, connect_topology_events, on_error, disconnect_topology_events,
  toggle_passive, ℕ, false, true, load_passive_mode_config,
}

-- What may happen to the stream. Only an open source has errors.
pub data Event : EventStream → EventStream → Type 0 where
  errors : {s : EventStream} → s.sse_source ≡ true → Event s (on_error s)
  fires : {s : EventStream} → 0 < s.timers → Event s (timer_fires s)
  toggles : {s : EventStream} (enabled : Bool) → Event s (toggle_passive enabled s)
  loads : {s : EventStream} (enabled : Bool) → Event s (load_passive_mode_config enabled s)

pub data Reached : EventStream → Type 0 where
  starts : (s : EventStream) → s.sse_source ≡ false → s.sources ≡ 0 → Reached s
  then_event : {s t : EventStream} → Reached s → Event s t → Reached t

abbrev pub count_of : Bool → ℕ
count_of is_open = if is_open then 1 else 0

connect_one :
    (s : EventStream)
    → s.sources ≡ count_of s.sse_source
    → (connect_topology_events s).sources ≡ count_of (connect_topology_events s).sse_source
unfolding connect_topology_events
connect_one s h = ground arith

disconnect_one :
    (s : EventStream)
    → s.sources ≡ count_of s.sse_source
    → (disconnect_topology_events s).sources ≡ count_of (disconnect_topology_events s).sse_source
unfolding disconnect_topology_events
disconnect_one s h = ground arith

Event-one :
    {s t : EventStream}
    → Event s t
    → s.sources ≡ count_of s.sse_source
    → t.sources ≡ count_of t.sse_source
unfolding on_error timer_fires toggle_passive load_passive_mode_config
Event-one {s} (errors o) h = ground arith
Event-one {s} (fires k) h = connect_one (record s { timers = s.timers - 1 }) h
Event-one {s} (toggles true) h = connect_one (record s { passive_mode = true }) h
Event-one {s} (toggles false) h = disconnect_one (record s { passive_mode = false }) h
Event-one {s} (loads true) h = connect_one (record s { passive_mode = true }) h
Event-one {s} (loads false) h = h

-- However errors, reconnects, changes of the mode and loads of it follow each other, the page has one
-- open stream where `sseSource` holds it, and none where it does not: no stream is left open unseen.
pub Reached-one : {s : EventStream} → Reached s → s.sources ≡ count_of s.sse_source
Reached-one (starts s e z) = rw (e, z) refl
Reached-one (then_event r e) = Event-one e (Reached-one r)

-- If the stream fails in passive mode and the mode is left before the reconnect is due, the reconnect
-- opens the stream all the same, with the mode off.
pub timer_fires_stale :
    (s : EventStream)
    → s.passive_mode ≡ true
    → let t = timer_fires (toggle_passive false (on_error s)) in
      (t.passive_mode ≡ false) × (t.sse_source ≡ true)
unfolding timer_fires toggle_passive on_error connect_topology_events disconnect_topology_events
timer_fires_stale s p = simp p (refl, refl)
