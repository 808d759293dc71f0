-- ===== src/Passive/Switch.antt =====
-- internal/api/frontend/js/tabs/settings.js: the switch of the passive mode, with the requests that it
-- sends, their answers, the locks of the page and the stream of topology changes.
pub mod Settled
use chirpstack_simulator.Passive.{
  EventStream, toggle_passive, load_passive_mode_config, on_error, timer_fires,
}
use chirpstack_simulator.Passive.Locks.{Ui, Element, apply_passive_mode_ui, render_table}
use chirpstack_simulator.Prelude.{
  Bool, List, Text, Option, ◌∷◌, [], ◌++◌, if◌then◌else◌, true, ◌≡◌, false, ℕ, some, none, not,
  ◌&&◌, ◌<◌, ◌||◌,
}
use chirpstack_simulator.Prelude.Int.{ℤ, pos}
use chirpstack_simulator.OrgConfig.{or_int}

-- The body of a request to /api/passive-mode.
pub record ModeRequest : Type 0 where
  pub enabled : Bool
  pub sync_interval_minutes : ℤ

-- The mode is `ui.passive_mode`. `sse_source`, `sources` and `timers` are as in the stream of topology
-- changes, and `pending` are the requests of the switch that are not answered, the oldest first.
pub record Switch : Type 0 where
  pub ui : Ui
  pub sse_source : Bool
  pub sources : ℕ
  pub timers : ℕ
  pub pending : List ModeRequest

-- The stream in the mode of the page, and the page with what has become of the stream.
abbrev pub stream_of : Switch → EventStream
stream_of s = record {
  passive_mode = s.ui.passive_mode;
  sse_source = s.sse_source;
  sources = s.sources;
  timers = s.timers;
}

abbrev pub put_stream : EventStream → Switch → Switch
put_stream stream s = record s {
  sse_source = stream.sse_source;
  sources = stream.sources;
  timers = stream.timers;
}

-- `parseInt(syncIntervalInput.value) || 5`
abbrev pub interval_of : Option ℤ → ℤ
interval_of minutes = or_int minutes (pos 5)

-- A click on the switch: the browser turns it, and the listener runs up to its `await`.
unfoldable pub flip : Option ℤ → Switch → Switch
flip minutes s =
    let enabled = not s.ui.toggle_checked in
    record s {
      ui = record s.ui { toggle_checked = enabled };
      pending =
          s.pending
          ++ (record { enabled = enabled; sync_interval_minutes = interval_of minutes }) ∷ [];
    }

-- The listener after its `await`, with `r.ok` and its own `enabled`.
unfoldable pub switched : Text → Bool → Bool → Switch → Switch
switched hint true enabled s =
    put_stream (toggle_passive enabled (stream_of s))
      (record s { ui = apply_passive_mode_ui hint enabled s.ui })
switched hint false enabled s = record s { ui = record s.ui { toggle_checked = not enabled } }

-- The answer to the oldest request.
abbrev pub answer_oldest : Text → Bool → List ModeRequest → Switch → Switch
answer_oldest hint ok [] s = s
answer_oldest hint ok (request ∷ rest) s =
    switched hint ok request.enabled (record s { pending = rest })

unfoldable pub answer_first : Text → Bool → Switch → Switch
answer_first hint ok s = answer_oldest hint ok s.pending s

-- The listener of the interval: what it sends.
unfoldable pub change_interval : Option ℤ → Switch → Option ModeRequest
change_interval minutes s =
    if s.ui.passive_mode
    then some (record { enabled = true; sync_interval_minutes = interval_of minutes })
    else none

-- loadPassiveModeConfig, from the mode that the server gives.
unfoldable pub load_mode : Text → Bool → Switch → Switch
load_mode hint enabled s =
    put_stream (load_passive_mode_config enabled (stream_of s))
      (record s { ui = apply_passive_mode_ui hint enabled s.ui })

-- The answer has changed the mode.
abbrev pub is_change : Bool → List ModeRequest → Bool
is_change ok [] = false
is_change ok (request ∷ rest) = ok

-- The runs in which the switch is clicked only when its requests are answered. The Boolean says whether
-- a reconnect has come due outside the passive mode since the mode was changed or the stream failed.
-- Only an open source has errors, and only a scheduled reconnect comes due.
module _ (hint : Text) where
  pub data Reached : Bool → Switch → Type 0 where
    starts :
        (ui : Ui) (enabled : Bool)
        → Reached false (
            load_mode hint enabled
              (record { ui = ui; sse_source = false; sources = 0; timers = 0; pending = [] }))
    flips :
        {stray : Bool} {s : Switch} (minutes : Option ℤ)
        → s.pending ≡ []
        → Reached stray s
        → Reached stray (flip minutes s)
    answers :
        {stray : Bool} {s : Switch} (ok : Bool)
        → Reached stray s
        → Reached (not (is_change ok s.pending) && stray) (answer_first hint ok s)
    draws :
        {stray : Bool} {s : Switch} (table : ℕ) (drawn : List Element)
        → Reached stray s
        → Reached stray (record s { ui = render_table hint table drawn s.ui })
    breaks :
        {stray : Bool} {s : Switch}
        → s.sse_source ≡ true
        → Reached stray s
        → Reached false (put_stream (on_error (stream_of s)) s)
    reconnects :
        {stray : Bool} {s : Switch}
        → 0 < s.timers
        → Reached stray s
        → Reached (not s.ui.passive_mode || stray) (put_stream (timer_fires (stream_of s)) s)
