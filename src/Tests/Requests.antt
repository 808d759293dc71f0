-- ===== src/Tests/Requests.antt =====
-- The theorems on durations, requests and hashes at concrete values.
use chirpstack_simulator.Prelude.{
  ◌≡◌, ◌≢◌, ◌↔◌, ◌⊎◌, ◌≤◌, ◌<◌, true, false, codes, none, ℕ, ◌+◌, ◌*◌, ◌%◌, ◌^◌, refl, Text, arith,
  if◌then◌else◌, length,
}
use chirpstack_simulator.Durations.{
  validate_uplink_interval, DurationUnit, match_duration, match_groups, split_digits, unit_of,
  interval_ok,
}
use chirpstack_simulator.Durations.Reading.{Reads, in_nanoseconds, validate_uplink_interval_iff}
use chirpstack_simulator.Api.{Fetched, response, Call, api}
use chirpstack_simulator.Api.Failures.{entries, logins, Answered, api-failures}
use chirpstack_simulator.Dashboard.Hash.{
  get_deterministic_hash, base_31, get_deterministic_hash_lem,
}

validate_uplink_interval_iff_example : (validate_uplink_interval (codes "30s") ≡ true) ↔ (
    (n : ℕ) × (unit : DurationUnit) × Reads (codes "30s") n unit
    × (1_000_000 ≤ in_nanoseconds unit)
    × (1_000_000_000 ≤ n * in_nanoseconds unit))
validate_uplink_interval_iff_example = validate_uplink_interval_iff (codes "30s")

accepts_30s : validate_uplink_interval (codes "30s") ≡ true
unfolding validate_uplink_interval match_duration match_groups split_digits unit_of interval_ok
accepts_30s = refl

refuses_999ms : validate_uplink_interval (codes "999ms") ≡ false
unfolding validate_uplink_interval match_duration match_groups split_digits unit_of interval_ok
refuses_999ms = refl

abbrev stop : Call Text
stop = record { method = codes "POST"; path = codes "/api/stop"; body = none }

abbrev unauthorized : Fetched Text
unauthorized = response (record { status = 401; ok = false; json = none })

api-failures_example :
    ((((api stop unauthorized).0).ok ≡ true)
      ↔ ((status : ℕ) × Answered unauthorized status × (status < 300)))
    × ((((api stop unauthorized).0).status ≡ 0) ↔ ¬ ((status : ℕ) × Answered unauthorized status))
    × (entries (api stop unauthorized).1 ≡ (if ((api stop unauthorized).0).ok then 0 else 1))
    × (logins (api stop unauthorized).1 ≤ 1)
    × ((logins (api stop unauthorized).1 ≡ 1) ↔ (
        Answered unauthorized 401
        × (stop.path ≢ codes "/api/auth/login")
        × (stop.path ≢ codes "/api/auth/status")))
api-failures_example =
    api-failures stop unauthorized (omega arith, (λ h. absurd cc, λ h. absurd (omega (arith, h))))

get_deterministic_hash_lem_example :
    ((get_deterministic_hash (codes "meter") % 2 ^ 32 ≡ base_31 0 (codes "meter") % 2 ^ 32)
      ⊎ ((get_deterministic_hash (codes "meter") + base_31 0 (codes "meter")) % 2 ^ 32 ≡ 0))
    × (get_deterministic_hash (codes "meter") ≤ length (codes "meter") * (2 ^ 31 + 2 ^ 16))
get_deterministic_hash_lem_example = get_deterministic_hash_lem (codes "meter") (omega arith)
