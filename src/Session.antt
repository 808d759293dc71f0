-- ===== src/Session.antt =====
-- internal/api/frontend/js/main.js (the login, the logout and the loading of the data), with the timer
-- of the polls in tabs/dashboard.js, the log stream in tabs/console.js and the login screen in
-- utils.js. Timers and streams are numbered as the browser opens them. The answers, the timers and
-- what the user types are events; `import("./tabs/console.js")`, whose module is loaded, takes no time.
pub mod Shell
pub mod Streams
pub mod Expiry
use chirpstack_simulator.Prelude.{
  ℕ, suc, ◌+◌, ◌-◌, Bool, true, false, not, ◌==◌, ◌&&◌, if◌then◌else◌, Option, none, some, List, [],
  ◌∷◌, Text, codes, trim, text_or, filter_by,
}
use chirpstack_simulator.Api.{needs_login}

-- `login_overlay` is whether the screen is shown, `login_error` its message where that is shown.
-- `loads` counts the runs of loadDashboardData that have not ended, `checks` the questions about the
-- session that onerror has put and that are not answered, and `reconnects` the timers that will call
-- connectLogStream; `starting` counts the
-- requests to start a simulation that are not answered. `timers` and `sources` are those that run and that are open.
pub record Session : Type 0 where
  pub login_overlay : Bool
  pub login_username : Text
  pub login_password : Text
  pub login_error : Option Text
  pub btn_login_disabled : Bool
  pub poll_timer : Option ℕ
  pub timers : List ℕ
  pub next_timer : ℕ
  pub log_source : Option ℕ
  pub sources : List ℕ
  pub next_source : ℕ
  pub loads : ℕ
  pub checks : ℕ
  pub reconnects : ℕ
  pub starting : ℕ

-- `clearInterval(id)`, and `close()` on a stream: the others go on.
unfoldable pub without : ℕ → List ℕ → List ℕ
without id ids = filter_by (λ k. not (k == id)) ids

unfoldable pub without_held : Option ℕ → List ℕ → List ℕ
unfolding without
without_held none ids = ids
without_held (some id) ids = without id ids

unfoldable pub stop_polling : Session → Session
stop_polling s = record s { poll_timer = none; timers = without_held s.poll_timer s.timers }

-- The poll that startPolling makes at once is answered by `poll_answered`, like those of the timer.
unfoldable pub start_polling : Session → Session
start_polling s =
    let stopped = stop_polling s in
    record stopped {
      poll_timer = some s.next_timer;
      timers = s.next_timer ∷ stopped.timers;
      next_timer = s.next_timer + 1;
    }

unfoldable pub connect_log_stream : Session → Session
connect_log_stream s = record s {
  log_source = some s.next_source;
  sources = s.next_source ∷ without_held s.log_source s.sources;
  next_source = s.next_source + 1;
}

-- `logSource.onerror` up to the answer to its question, and from there on.
unfoldable pub stream_failed : Session → Session
stream_failed s = record s {
  log_source = none;
  sources = without_held s.log_source s.sources;
  checks = s.checks + 1;
}

unfoldable pub check_answered : Bool → Session → Session
check_answered authenticated s =
    let answered = record s { checks = s.checks - 1 } in
    if authenticated then record answered { reconnects = s.reconnects + 1 } else answered

unfoldable pub reconnect_due : Session → Session
reconnect_due s = connect_log_stream (record s { reconnects = s.reconnects - 1 })

unfoldable pub show_login_screen : Session → Session
show_login_screen s = record s {
  login_overlay = true;
  login_username = [];
  login_password = [];
  login_error = none;
}

unfoldable pub hide_login_screen : Session → Session
hide_login_screen s = record s { login_overlay = false }

-- What `api` does for an answer with this status on this path.
unfoldable pub on_status : ℕ → Text → Session → Session
on_status status path s = if needs_login status path then show_login_screen s else s

-- A poll is answered. What it shows is in the module Dashboard.
unfoldable pub poll_answered : ℕ → Session → Session
poll_answered status s = on_status status (codes "/api/status") s

-- loadDashboardData up to its first `await`, and its last statement.
unfoldable pub load_dashboard_data : Session → Session
load_dashboard_data s = connect_log_stream (record s { loads = s.loads + 1 })

unfoldable pub load_finished : Session → Session
load_finished s = start_polling (record s { loads = s.loads - 1 })

-- startSimulation: its request, and the answer. The rest of it is in the module Dashboard.
unfoldable pub start_sent : Session → Session
start_sent s = record s { starting = s.starting + 1 }

unfoldable pub start_answered : Bool → Session → Session
start_answered ok s =
    let answered = record s { starting = s.starting - 1 } in
    if ok then start_polling (connect_log_stream answered) else answered

-- The request of a login: the user name is trimmed, and the password is not.
pub record Credentials : Type 0 where
  pub username : Text
  pub password : Text

unfoldable pub submit_login : Session → Session × Credentials
submit_login s = (
  record s { btn_login_disabled = true },
  record { username = trim s.login_username; password = s.login_password },
)

-- The answer to a login: ok, or `r.data.error`, which is empty where there is none.
pub data LoginAnswer : Type 0 where
  accepted : LoginAnswer
  refused : Text → LoginAnswer

unfoldable pub login_answered : LoginAnswer → Session → Session
login_answered accepted s =
    load_dashboard_data (hide_login_screen (record s { btn_login_disabled = false }))
login_answered (refused error) s = record s {
  btn_login_disabled = false;
  login_error = some (text_or error (codes "Giriş başarısız."));
  login_password = [];
}

-- The answer to a logout. An open stream is closed, and `logSource` keeps it.
unfoldable pub logout_answered : Bool → ℕ → Session → Session
logout_answered ok status s =
    let answered = on_status status (codes "/api/auth/logout") s in
    if ok
    then (let stopped = stop_polling answered in
        show_login_screen
          (record stopped { sources = without_held stopped.log_source stopped.sources }))
    else answered

-- The end of `init`, with the answer of checkAuthStatus.
unfoldable pub init : Bool → Session → Session
init authenticated s =
    if authenticated then load_dashboard_data (hide_login_screen s) else show_login_screen s

unfoldable pub types : Text → Text → Session → Session
types username password s = record s { login_username = username; login_password = password }
