-- ===== src/Tests/Sessions.antt =====
-- The theorems on logins, polls, the log stream and the tabs at concrete inputs.
use chirpstack_simulator.Session.{
  Session, Credentials, init, logout_answered, login_answered, refused, load_finished,
  load_dashboard_data, connect_log_stream, hide_login_screen, start_polling, stop_polling,
  on_status, show_login_screen,
}
use chirpstack_simulator.Session.Streams.{Reached, Reached-InHand, InHand, loaded, starts, logs_in}
use chirpstack_simulator.Session.Expiry.{here, waits, logout-quiet}
use chirpstack_simulator.Session.Shell.{Shell, switch_tab, click_tab, Filters}
use chirpstack_simulator.Session.Shell.Clicks as Clicks
use chirpstack_simulator.Prelude.{◌∷◌, codes, Text, false, [], true, ◌≡◌, refl, none, arith}
use Prim.Native.String.{[]}
use chirpstack_simulator.Session.Shell.Clicks.{Shows, Reached-Shows, clicks_tab}

abbrev pub opened : Session
opened = record {
  login_overlay = false;
  login_username = [];
  login_password = [];
  login_error = none;
  btn_login_disabled = false;
  poll_timer = none;
  timers = [];
  next_timer = 1;
  log_source = none;
  sources = [];
  next_source = 1;
  loads = 0;
  checks = 0;
  reconnects = 0;
  starting = 0;
}

loading : Reached (init true opened)
loading = starts opened true refl refl refl refl

polling : Reached (load_finished (init true opened))
unfolding init load_dashboard_data connect_log_stream hide_login_screen
polling = Reached.then_event loading (loaded (omega arith))

Reached-InHand_example : InHand (load_finished (init true opened))
Reached-InHand_example = Reached-InHand polling

logout-quiet_example :
    let out = logout_answered true 200 (load_finished (init true opened)) in
    let t = login_answered (refused (codes "no")) out in (t.timers ≡ []) × (t.sources ≡ [])
unfolding load_finished init load_dashboard_data connect_log_stream hide_login_screen start_polling
    stop_polling logout_answered on_status show_login_screen login_answered
logout-quiet_example =
    logout-quiet 200 polling refl refl refl refl (waits here (logs_in (refused (codes "no"))) refl)

abbrev pub admin : Credentials
admin = record { username = codes "admin"; password = codes "secret" }

abbrev pub page : Shell
page = record {
  current_tab = [];
  contents =
      record { id = codes "content-overview"; active = true }
      ∷ record { id = codes "content-networks"; active = false }
      ∷ [];
  links = record { data_tab = codes "networks"; active = false } ∷ [];
  title = [];
  sidebar_open = false;
  open_mark = false;
}

abbrev pub filters : Filters
filters = record {
  dp_tenant_filter = [];
  net_tenant_filter = [];
  gw_tenant_filter = [];
  dev_tenant_filter = [];
  metrics_chart = false;
}

abbrev pub same : Text → Text
same key = key

Reached-Shows_example : Shows same (
    click_tab same filters 800
      (codes "overview")
      (switch_tab same filters (codes "networks") page).0)
Reached-Shows_example = Reached-Shows (
    Clicks.Reached.then_event
      (Clicks.Reached.starts page filters (codes "networks") refl ((refl, tt), (tt, tt)))
      (clicks_tab filters 800 (codes "overview")))
