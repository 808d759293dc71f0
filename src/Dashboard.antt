-- ===== src/Dashboard.antt =====
-- internal/api/frontend/js/tabs/dashboard.js: the status poll, the history behind the performance
-- chart, and the start and stop buttons. The timer of the polls and the log stream are in the module
-- Session; what other tabs refresh after a poll and what the page only shows are left out.
pub mod Charts
pub mod Hash
pub mod Form
pub mod Map
pub mod Inputs
use chirpstack_simulator.Prelude.{
  ℕ, Text, Bool, replicate, List, true, Option, ◌||◌, if◌then◌else◌, [], text_eq, length, ◌++◌, ltb,
  some, codes, ◌∷◌, not, drop, false, zero, ◌/◌, ◌&&◌, text_or, ◌-◌, truthy, none, ◌%◌,
}
use Prim.Native.Nat.{ℕ, suc}

pub record Metrics : Type 0 where
  pub device_uplink_count : ℕ
  pub device_join_request_count : ℕ
  pub device_join_accept_count : ℕ

pub record History : Type 0 where
  pub labels : List Text
  pub uplinks : List ℕ
  pub join_requests : List ℕ
  pub join_accepts : List ℕ

pub data Entry : Type 0 where
  simulation_finished simulation_error starting stopping start_sent stop_sent : Entry
  start_failed stop_failed : Text → Entry

-- `active_org_id` and `tenant_id` are empty where there is none. `has_canvas`: the page has the chart's
-- element. The start and the stop button stand for both copies of each.
pub record Dashboard : Type 0 where
  pub current_status : Text
  pub active_org_id : Text
  pub has_canvas : Bool
  pub metrics_chart : Bool
  pub chart_data_history : History
  pub max_history_points : ℕ
  pub prev_metrics : Option Metrics
  pub btn_start_disabled : Bool
  pub btn_stop_disabled : Bool
  pub log : List Entry

-- `r.data` of `/api/status`; an absent status is empty.
pub record StatusData : Type 0 where
  pub status : Text
  pub uptime_seconds : Option ℕ
  pub metrics : Option Metrics

-- The text of an uptime, by its numbers.
pub data Uptime : Type 0 where
  in_seconds : ℕ → Uptime
  in_minutes in_hours : ℕ → ℕ → Uptime

pub format_uptime : ℕ → Uptime
format_uptime seconds =
    if ltb seconds 60
    then in_seconds seconds
    else (let m = seconds / 60 in
        if ltb m 60 then in_minutes m (seconds % 60) else in_hours (m / 60) (m % 60))

abbrev pub is_running : Text → Bool
is_running status = text_eq status (codes "running") || text_eq status (codes "starting")

pub set_status_badge : Text → Dashboard → Dashboard
set_status_badge status dashboard = record dashboard {
  current_status = status;
  btn_start_disabled = is_running status || not (truthy dashboard.active_org_id);
  btn_stop_disabled = not (is_running status);
}

pub labels_down : (ℕ → Text) → ℕ → List Text
labels_down label_ago zero = []
labels_down label_ago (suc i) = label_ago i ∷ labels_down label_ago i

-- The empty chart, whose labels are the times up to now.
pub init_chart : (ℕ → Text) → Dashboard → Dashboard
init_chart label_ago dashboard =
    if not dashboard.has_canvas || dashboard.metrics_chart then dashboard else record dashboard {
      metrics_chart = true;
      chart_data_history = record {
        labels = labels_down label_ago dashboard.max_history_points;
        uplinks = replicate dashboard.max_history_points 0;
        join_requests = replicate dashboard.max_history_points 0;
        join_accepts = replicate dashboard.max_history_points 0;
      };
    }

-- `Math.max(0, current - previous)`, 0 where there is no previous poll.
delta : (Metrics → ℕ) → Option Metrics → Metrics → ℕ
delta count none current = 0
delta count (some previous) current = count current - count previous

-- `push`, and `shift` when the labels have become more than the chart shows.
pub push_point : {A : Type 0} → Bool → List A → A → List A
push_point too_many xs x = if too_many then drop 1 (xs ++ x ∷ []) else xs ++ x ∷ []

pub update_history : ℕ → Text → Option Metrics → Metrics → History → History
unfolding delta
update_history max_points time_str previous current history =
    let too_many = ltb max_points (length (history.labels ++ time_str ∷ [])) in
    record {
      labels = push_point too_many history.labels time_str;
      uplinks =
          push_point too_many history.uplinks (delta (λ m. m.device_uplink_count) previous current);
      join_requests =
          push_point too_many history.join_requests
            (delta (λ m. m.device_join_request_count) previous current);
      join_accepts =
          push_point too_many history.join_accepts
            (delta (λ m. m.device_join_accept_count) previous current);
    }

pub update_chart : (ℕ → Text) → Option Metrics → Dashboard → Dashboard
update_chart label_ago none dashboard = dashboard
update_chart label_ago (some current) dashboard =
    let ready = init_chart label_ago dashboard in
    if ready.metrics_chart
    then record ready {
      prev_metrics = some current;
      chart_data_history =
          update_history ready.max_history_points (label_ago 0) ready.prev_metrics current
            ready.chart_data_history;
    }
    else ready

-- The two entries of the log that a poll may make.
pub log_status : Text → Dashboard → Dashboard
log_status status dashboard =
    let finished =
      if text_eq status (codes "idle") && not (text_eq dashboard.current_status (codes "idle"))
      then simulation_finished ∷ []
      else [] in
    let failed = if text_eq status (codes "error") then simulation_error ∷ [] else [] in
    record dashboard { log = dashboard.log ++ finished ++ failed }

-- `none` is a response that is not ok. `label_ago i` is the time of `i` steps of the chart ago.
pub poll_status : (ℕ → Text) → Option StatusData → Dashboard → Dashboard
poll_status label_ago none dashboard = dashboard
poll_status label_ago (some answer) dashboard =
    update_chart label_ago answer.metrics
      (log_status answer.status (set_status_badge (text_or answer.status (codes "idle")) dashboard))

-- The answer to a start or a stop: ok, or the text of its error.
pub data Answer : Type 0 where
  accepted : Answer
  refused : Text → Answer

-- `fill(0)` of the three series.
abbrev pub cleared : History → History
cleared history = record history {
  uplinks = replicate (length history.uplinks) 0;
  join_requests = replicate (length history.join_requests) 0;
  join_accepts = replicate (length history.join_accepts) 0;
}

pub start_simulation : Text → Answer → Dashboard → Dashboard
start_simulation tenant_id answer dashboard =
    if not (truthy dashboard.active_org_id) || not (truthy tenant_id)
    then dashboard
    else elim answer [
      | accepted ↦ record dashboard {
        btn_start_disabled = true;
        log = dashboard.log ++ starting ∷ start_sent ∷ [];
        prev_metrics = none;
        chart_data_history =
            if dashboard.metrics_chart
            then cleared dashboard.chart_data_history
            else dashboard.chart_data_history;
      }
      | refused message ↦ record dashboard {
        btn_start_disabled = false;
        log = dashboard.log ++ starting ∷ start_failed message ∷ [];
      }
    ]

unfoldable pub stop_simulation : Answer → Dashboard → Dashboard
stop_simulation accepted dashboard = record dashboard {
  btn_stop_disabled = true;
  log = dashboard.log ++ stopping ∷ stop_sent ∷ [];
}
stop_simulation (refused message) dashboard = record dashboard {
  btn_stop_disabled = false;
  log = dashboard.log ++ stopping ∷ stop_failed message ∷ [];
}
