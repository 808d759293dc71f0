-- ===== src/Session/Expiry.antt =====
-- What goes on behind the login screen: after a logout, and after the server has ended the session.
use chirpstack_simulator.Session.Streams.{
  Event, polls, fails, checked, reconnects, loaded, typed, submits, logs_in, logs_out, Reached,
  Reached-InHand, logout_accepted, InHand, held, then_event, starts_simulation, started,
}
use chirpstack_simulator.Session.{
  Session, Credentials, poll_answered, types, submit_login, logout_answered, load_finished,
  on_status, List, ℕ, login_answered, show_login_screen, needs_login, stop_polling,
  load_dashboard_data, hide_login_screen, connect_log_stream, refused, accepted, start_polling,
  start_sent,
}
use chirpstack_simulator.Prelude.{
  List, ◌≡◌, ℕ, inr, none, true, ◌<◌, [], Text, ◌∷◌, ◌∙◌, ◌≢◌, refl, codes, arith, Bool, false,
}
use chirpstack_simulator.Api.{needs_login}

-- Events while the login screen is shown, after each of which it is still shown.
pub data Waits : Session → Session → Type 0 where
  here : {s : Session} → Waits s s
  waits : {s t u : Session} → Waits s t → Event t u → u.login_overlay ≡ true → Waits s u

record Quiet (s : Session) : Type 0 where
  pub poll_timer : s.poll_timer ≡ none
  pub timers : s.timers ≡ []
  pub sources : s.sources ≡ []
  pub loads : s.loads ≡ 0
  pub checks : s.checks ≡ 0
  pub reconnects : s.reconnects ≡ 0
  pub starting : s.starting ≡ 0

poll-Quiet : (status : ℕ) (path : Text) (s : Session) → Quiet s → Quiet (on_status status path s)
unfolding on_status show_login_screen
poll-Quiet status path s q = ground arith

logout-kept :
    (ok : Bool) (status : ℕ) (s : Session)
    → ((logout_answered ok status s).loads ≡ s.loads)
      × ((logout_answered ok status s).checks ≡ s.checks)
      × ((logout_answered ok status s).reconnects ≡ s.reconnects)
      × ((logout_answered ok status s).starting ≡ s.starting)
unfolding logout_answered on_status show_login_screen stop_polling
logout-kept ok status s = ground arith

Quiet-InHand : {s : Session} → Quiet s → InHand s
Quiet-InHand q = record {
  timers_held = rw (q.timers, q.poll_timer) refl;
  sources_held = inr q.sources;
}

logout-Quiet :
    (status : ℕ) (s : Session)
    → InHand s
    → s.loads ≡ 0
    → s.checks ≡ 0
    → s.reconnects ≡ 0
    → s.starting ≡ 0
    → Quiet (logout_answered true status s)
logout-Quiet status s v l c r b =
    let (p, t, o) = logout_accepted status s v in
    let (kl, kc, kr, kb) = logout-kept true status s in
    record {
      poll_timer = p;
      timers = t;
      sources = o;
      loads = kl ∙ l;
      checks = kc ∙ c;
      reconnects = kr ∙ r;
      starting = kb ∙ b;
    }

Event-Quiet : {s t : Session} → Event s t → t.login_overlay ≡ true → Quiet s → Quiet t
unfolding poll_answered types submit_login login_answered
Event-Quiet {s} (polls status) shown q = poll-Quiet status (codes "/api/status") s q
Event-Quiet {s} (fails o) shown q = ground (arith, q.sources)
Event-Quiet {s} (checked authenticated k) shown q = ground (arith, q.checks)
Event-Quiet {s} (reconnects k) shown q = ground (arith, q.reconnects)
Event-Quiet {s} (loaded k) shown q = ground (arith, q.loads)
Event-Quiet {s} (starts_simulation h) shown q = unfold start_sent in cc
Event-Quiet {s} (started ok k) shown q = ground (arith, q.starting)
Event-Quiet {s} (typed u p) shown q = ground arith
Event-Quiet {s} submits shown q = ground arith
Event-Quiet {s} (logs_in accepted) shown q =
    unfold load_dashboard_data hide_login_screen connect_log_stream in cc
Event-Quiet {s} (logs_in (refused error)) shown q = ground arith
Event-Quiet {s} (logs_out true status) shown q =
    logout-Quiet status s (Quiet-InHand q) q.loads q.checks q.reconnects q.starting
Event-Quiet {s} (logs_out false status) shown q =
    unfold logout_answered in poll-Quiet status (codes "/api/auth/logout") s q

Waits-Quiet : {s t : Session} → Waits s t → Quiet s → Quiet t
Waits-Quiet here q = q
Waits-Quiet (waits w e shown) q = Event-Quiet e shown (Waits-Quiet w q)

-- If a logout is accepted when no load of the data, no question about the session, no reconnect and no
-- start of a simulation is outstanding, then for as long as the login screen stays no timer polls and no stream is open,
-- whatever answers still come and whatever logins are refused.
pub logout-quiet :
    {s t : Session} (status : ℕ)
    → Reached s
    → s.loads ≡ 0
    → s.checks ≡ 0
    → s.reconnects ≡ 0
    → s.starting ≡ 0
    → Waits (logout_answered true status s) t
    → (t.timers ≡ []) × (t.sources ≡ [])
logout-quiet {s} status r l c k b w =
    let q = Waits-Quiet w (logout-Quiet status s (Reached-InHand r) l c k b) in
    (q.timers, q.sources)

-- If a logout is accepted while the data is still being loaded, the end of the load starts the polls
-- behind the login screen.
pub load_finished_late :
    {s : Session} (status : ℕ)
    → Reached s
    → 0 < s.loads
    → let t = load_finished (logout_answered true status s) in
      (t.login_overlay ≡ true) × (t.timers ≡ held t.poll_timer) × (t.poll_timer ≢ none)
unfolding load_finished start_polling stop_polling logout_answered show_login_screen
load_finished_late {s} status r k =
    let waiting : 0 < (logout_answered true status s).loads = rw (logout-kept true status s).0 k in
    let end = then_event (then_event r (logs_out true status)) (loaded waiting) in
    (refl, (Reached-InHand end).timers_held, λ e. cc)

-- The user types into the login form, and then a poll is answered by 401, again and again.
pub expired : List Credentials → Session → Session
expired [] s = s
expired (entry ∷ rest) s = expired rest (poll_answered 401 (types entry.username entry.password s))

-- When the server has ended the session, the polls go on behind the login screen: whatever the user
-- types between them, each answer empties the form, so that a login sent then has neither a user name
-- nor a password, and the timer of the polls keeps running.
pub expired_lem :
    (entry : Credentials) (rest : List Credentials) (s : Session)
    → let t = expired (entry ∷ rest) s in
      (t.login_overlay ≡ true)
      × ((submit_login t).1 ≡ record { username = []; password = [] })
      × (t.timers ≡ s.timers)
      × (t.poll_timer ≡ s.poll_timer)
unfolding expired poll_answered on_status needs_login show_login_screen types submit_login
expired_lem entry [] s = (refl, refl, refl, refl)
expired_lem entry (next ∷ rest) s =
    expired_lem next rest (poll_answered 401 (types entry.username entry.password s))
