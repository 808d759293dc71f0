-- ===== src/Session/Streams.antt =====
-- The timers and the streams that run, over every order of events.
use chirpstack_simulator.Prelude.{
  ℕ, ◌+◌, ◌<◌, ◌≡◌, refl, Bool, true, false, Option, none, some, List, [], ◌∷◌, Text, arith, ◌⊎◌,
  inl, inr, codes, length,
}
use chirpstack_simulator.Session.{
  Session, without, without_held, start_polling, connect_log_stream, stream_failed, check_answered,
  reconnect_due, on_status, show_login_screen, stop_polling, hide_login_screen, poll_answered,
  load_finished, load_dashboard_data, submit_login, LoginAnswer, accepted, refused, login_answered,
  logout_answered, init, types, start_sent, start_answered,
}

-- What may happen to an open page, whose login screen covers the button that starts a simulation. Only an open stream has errors; a load ends, a question is answered
-- and a reconnect is due where there is one.
pub data Event : Session → Session → Type 0 where
  polls : {s : Session} (status : ℕ) → Event s (poll_answered status s)
  fails : {s : Session} → 0 < length s.sources → Event s (stream_failed s)
  checked :
      {s : Session} (authenticated : Bool) → 0 < s.checks → Event s (check_answered authenticated s)
  reconnects : {s : Session} → 0 < s.reconnects → Event s (reconnect_due s)
  loaded : {s : Session} → 0 < s.loads → Event s (load_finished s)
  starts_simulation : {s : Session} → s.login_overlay ≡ false → Event s (start_sent s)
  started : {s : Session} (ok : Bool) → 0 < s.starting → Event s (start_answered ok s)
  typed : {s : Session} (username password : Text) → Event s (types username password s)
  submits : {s : Session} → Event s (submit_login s).0
  logs_in : {s : Session} (answer : LoginAnswer) → Event s (login_answered answer s)
  logs_out : {s : Session} (ok : Bool) (status : ℕ) → Event s (logout_answered ok status s)

-- A page that has just been opened, and the answer to its question about the session.
pub data Reached : Session → Type 0 where
  starts :
      (s : Session) (authenticated : Bool)
      → s.poll_timer ≡ none
      → s.timers ≡ []
      → s.log_source ≡ none
      → s.sources ≡ []
      → Reached (init authenticated s)
  then_event : {s t : Session} → Reached s → Event s t → Reached t

abbrev pub held : Option ℕ → List ℕ
held none = []
held (some id) = id ∷ []

-- What runs is what the page holds, or, after a logout, nothing.
pub record Held (poll_timer : Option ℕ) (timers : List ℕ) (log_source : Option ℕ) (sources : List ℕ)
    : Type 0 where
  pub timers_held : timers ≡ held poll_timer
  pub sources_held : (sources ≡ held log_source) ⊎ (sources ≡ [])

abbrev pub InHand : Session → Type 0
InHand s = Held s.poll_timer s.timers s.log_source s.sources

without_self : (id : ℕ) → without id (id ∷ []) ≡ []
unfolding without
without_self id = ground arith

pub without_held-held : (o : Option ℕ) → without_held o (held o) ≡ []
unfolding without_held
without_held-held none = refl
without_held-held (some id) = without_self id

pub without_held-nil : (o : Option ℕ) → without_held o [] ≡ []
unfolding without_held without
without_held-nil none = refl
without_held-nil (some id) = refl

pub closes : (o : Option ℕ) (ids : List ℕ) → (ids ≡ held o) ⊎ (ids ≡ []) → without_held o ids ≡ []
closes o ids (inl e) = rw e (without_held-held o)
closes o ids (inr e) = rw e (without_held-nil o)

connect-InHand : (s : Session) → InHand s → InHand (connect_log_stream s)
unfolding connect_log_stream
connect-InHand s v = record {
  timers_held = v.timers_held;
  sources_held = inl (rw (closes s.log_source s.sources v.sources_held) refl);
}

start_polling-InHand : (s : Session) → InHand s → InHand (start_polling s)
unfolding start_polling stop_polling
start_polling-InHand s v = record {
  timers_held = rw (closes s.poll_timer s.timers (inl v.timers_held)) refl;
  sources_held = v.sources_held;
}

on_status-InHand :
    (status : ℕ) (path : Text) (s : Session) → InHand s → InHand (on_status status path s)
unfolding on_status show_login_screen
on_status-InHand status path s v = ground arith

load-InHand : (s : Session) → InHand s → InHand (load_dashboard_data s)
unfolding load_dashboard_data
load-InHand s v = connect-InHand (record s { loads = s.loads + 1 }) v

stop_polling-timers : (s : Session) → InHand s → (stop_polling s).timers ≡ []
unfolding stop_polling
stop_polling-timers s v = closes s.poll_timer s.timers (inl v.timers_held)

-- An accepted logout stops the polls and closes the stream.
pub logout_accepted :
    (status : ℕ) (s : Session)
    → InHand s
    → ((logout_answered true status s).poll_timer ≡ none)
      × ((logout_answered true status s).timers ≡ [])
      × ((logout_answered true status s).sources ≡ [])
unfolding logout_answered show_login_screen stop_polling
logout_accepted status s v =
    let w = on_status-InHand status (codes "/api/auth/logout") s v in
    (refl, closes _ _ (inl w.timers_held), closes _ _ w.sources_held)

logout-InHand :
    (ok : Bool) (status : ℕ) (s : Session) → InHand s → InHand (logout_answered ok status s)
logout-InHand true status s v =
    let (p, t, c) = logout_accepted status s v in
    record { timers_held = rw (p, t) refl; sources_held = inr c }
logout-InHand false status s v =
    unfold logout_answered in on_status-InHand status (codes "/api/auth/logout") s v

start_answered-InHand : (ok : Bool) (s : Session) → InHand s → InHand (start_answered ok s)
unfolding start_answered
start_answered-InHand true s v = start_polling-InHand _ (connect-InHand _ v)
start_answered-InHand false s v = v

Event-InHand : {s t : Session} → Event s t → InHand s → InHand t
unfolding poll_answered stream_failed check_answered reconnect_due load_finished types submit_login
    login_answered hide_login_screen
Event-InHand {s} (polls status) v = on_status-InHand status (codes "/api/status") s v
Event-InHand {s} (fails o) v = record {
  timers_held = v.timers_held;
  sources_held = inr (closes s.log_source s.sources v.sources_held);
}
Event-InHand {s} (checked true k) v = v
Event-InHand {s} (checked false k) v = v
Event-InHand {s} (reconnects k) v = connect-InHand _ v
Event-InHand {s} (loaded k) v = start_polling-InHand _ v
Event-InHand {s} (starts_simulation h) v = unfold start_sent in v
Event-InHand {s} (started ok k) v = start_answered-InHand ok s v
Event-InHand {s} (typed u p) v = v
Event-InHand {s} submits v = v
Event-InHand {s} (logs_in accepted) v = load-InHand _ v
Event-InHand {s} (logs_in (refused error)) v = v
Event-InHand {s} (logs_out ok status) v = logout-InHand ok status s v

init-InHand : (authenticated : Bool) (s : Session) → InHand s → InHand (init authenticated s)
unfolding init hide_login_screen show_login_screen
init-InHand true s v = load-InHand _ v
init-InHand false s v = v

-- However logins, logouts, starts of a simulation, failures of the stream, reconnects and the ends of
-- loads follow each other,
-- the page polls with the one timer that `state.pollTimer` holds, or with none where it holds none, and
-- the one log stream that may be open is the one that `logSource` holds.
pub Reached-InHand : {s : Session} → Reached s → InHand s
Reached-InHand (starts s authenticated p t l o) =
    init-InHand authenticated s (record { timers_held = rw (p, t) refl; sources_held = inr o })
Reached-InHand (then_event r e) = Event-InHand e (Reached-InHand r)
