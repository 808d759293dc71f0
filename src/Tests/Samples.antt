-- ===== src/Tests/Samples.antt =====
-- The console, the log, the buttons and the preview, computed at concrete inputs.
use chirpstack_simulator.Prelude.{get_elem?, codes, some, ◌∷◌, ◌≡◌, map, [], none, true, inl, refl}
use chirpstack_simulator.Prelude.Int.{◌-ℤ◌}
use chirpstack_simulator.Tests.Data.{js}
use chirpstack_simulator.Tests.Parts.{noon, console, log_line, records, dashboard}
use chirpstack_simulator.Telemetry.{
  simulate_telemetry, preview_from, preview_row, payload_of, number_or_zero, decode, decode_custom,
  bytes_to_hex, to_hex, hex_char, last_two, custom, signed16, join16, array, plain,
}
use chirpstack_simulator.Console.{
  append_console_log, drop_oldest, new_line, passes, source_eq, localize, raw_timestamp,
  up_to_bracket, replace_first, local_ts, pad_start, digits_100, is_remote, color_of, cyan,
}
use chirpstack_simulator.Dashboard.{stop_simulation, accepted}
use chirpstack_simulator.SystemLogs.{get_logs, has_level, mentions}
use chirpstack_simulator.Intervals.{put_interval}
use chirpstack_simulator.Prelude.Int.{negsuc}

console_shown :
    let lines = (append_console_log js noon log_line console).lines in
    (map (λ el. el.content) lines ≡ codes "[12:05:00] as/integration uplink" ∷ [])
    × (map (λ el. el.color) lines ≡ cyan ∷ [])
    × (map (λ el. el.shown) lines ≡ true ∷ [])
unfolding append_console_log drop_oldest new_line passes source_eq localize raw_timestamp
    up_to_bracket replace_first local_ts pad_start digits_100 is_remote color_of
console_shown = (refl, refl, refl)

logs_found :
    (map (λ log. log.id) (get_logs js (codes "saved") (codes "all") records) ≡ 2 ∷ 1 ∷ [])
    × (map (λ log. log.id) (get_logs js [] (codes "info") records) ≡ 1 ∷ [])
unfolding get_logs has_level mentions
logs_found = (refl, refl)

stop_pressed : (stop_simulation accepted dashboard).btn_stop_disabled ≡ true
unfolding stop_simulation
stop_pressed = refl

interval_saved :
    put_interval
      (codes "02")
      (codes "5m")
      ((codes "01", codes "1m") ∷ (codes "02", codes "2m") ∷ [])
    ≡ (codes "01", codes "1m") ∷ (codes "02", codes "5m") ∷ []
unfolding put_interval
interval_saved = refl

preview_computed :
    get_elem? (simulate_telemetry custom (λ f_cnt. array (some 255 ∷ none ∷ []))) 3
    ≡ some (record { f_cnt = 3; hex = codes "FF00"; decoded = inl (plain (negsuc 255)) })
unfolding simulate_telemetry preview_from preview_row payload_of number_or_zero decode decode_custom
    bytes_to_hex to_hex hex_char last_two signed16 join16 ◌-ℤ◌
preview_computed = refl
