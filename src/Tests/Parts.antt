-- ===== src/Tests/Parts.antt =====
-- The theorems on the console, the log, the chart and the payload preview at concrete inputs.
use chirpstack_simulator.Prelude.{
  Text, ℕ, List, codes, [], ◌∷◌, none, some, Option, true, ◌≡◌, false, arith, refl,
}
use chirpstack_simulator.Tests.Data.{js}
use chirpstack_simulator.Telemetry.{
  decode, ScriptResult, temperature, is_hex, array, encode_temperature, celsius_hundredths,
}
use chirpstack_simulator.SystemLogs.{Store, Log}
use chirpstack_simulator.Console.{Console, apply_console_filters, append_all, Clock, remote}
use chirpstack_simulator.Dashboard.{
  StatusData, Metrics, poll_status, Dashboard, start_simulation, accepted,
}
use chirpstack_simulator.Dashboard.Charts.{HistoryOk, poll_status-HistoryOk}
use chirpstack_simulator.Telemetry.Hex.{EvenHex}
use chirpstack_simulator.Console.Filters.{InStep, append_all-InStep}
use Prim.Native.Nat.{ℕ}
use chirpstack_simulator.Prelude.Int.{negsuc}
use chirpstack_simulator.Telemetry.RoundTrip.{decode-encode_temperature}

abbrev pub noon : Text → Option Clock
noon text = some (record { hours = 12; minutes = 5; seconds = 0 })

abbrev pub console : Console
console = record {
  placeholder = true;
  lines = [];
  filter = record { source_val = some remote; log_filter = codes "up" };
}

abbrev pub log_line : Text
log_line = codes "[2024-01-01T12:05:00Z] as/integration uplink"

append_all-InStep_example :
    InStep js
      (append_all js noon (log_line ∷ codes "started" ∷ []) (apply_console_filters js console))
append_all-InStep_example = append_all-InStep js noon (log_line ∷ codes "started" ∷ []) console

abbrev pub records : List Log
records =
    record { id = 1; time = 10; message = codes "saved"; level = codes "info"; details = none }
    ∷ record {
      id = 2;
      time = 90;
      message = codes "failed";
      level = codes "error";
      details = some (codes "saved");
    }
    ∷ []

abbrev pub store : Store
store = record { records = records; last_purge = 20 }

abbrev pub counts : Metrics
counts = record {
  device_uplink_count = 4;
  device_join_request_count = 2;
  device_join_accept_count = 2;
}

abbrev pub dashboard : Dashboard
dashboard = record {
  current_status = codes "running";
  active_org_id = codes "acme";
  has_canvas = true;
  metrics_chart = false;
  chart_data_history = record { labels = []; uplinks = []; join_requests = []; join_accepts = [] };
  max_history_points = 20;
  prev_metrics = none;
  btn_start_disabled = true;
  btn_stop_disabled = false;
  log = [];
}

abbrev pub idle_now : StatusData
idle_now = record { status = codes "idle"; uptime_seconds = none; metrics = some counts }

abbrev pub no_label : ℕ → Text
no_label i = []

poll_status-HistoryOk_example :
    HistoryOk (poll_status no_label (some idle_now) dashboard)
    × HistoryOk (start_simulation (codes "acme") accepted dashboard)
poll_status-HistoryOk_example =
    poll_status-HistoryOk no_label (some idle_now) (codes "acme") accepted dashboard (λ h. cc)

decode-encode_temperature_example :
    decode temperature (encode_temperature (negsuc 99)) ≡ celsius_hundredths (negsuc 99)
decode-encode_temperature_example =
    decode-encode_temperature (negsuc 99) (omega arith) (omega arith)

even_digits : EvenHex (codes "0aF1")
unfolding EvenHex is_hex
even_digits = (refl, refl, (refl, refl, tt))

abbrev pub script : ℕ → ScriptResult
script f_cnt = array (some f_cnt ∷ none ∷ [])
