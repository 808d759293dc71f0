-- ===== src/Durations.antt =====
-- internal/api/frontend/js/tabs/orgs.js: validateDuration and validateUplinkInterval, the tests of the
-- durations that the organization form takes.
pub mod Reading
use chirpstack_simulator.Prelude.{
  ℕ, Text, ◌∷◌, Option, Bool, if◌then◌else◌, none, truthy, is_digit, text_eq, false, ltb, some,
  codes, [], ◌==◌, true, leading_digits,
}
use Prim.Native.Nat.{ℕ}

pub data DurationUnit : Type 0 where
  nanoseconds microseconds milliseconds seconds minutes hours : DurationUnit

-- `ns|us|µs|ms|s|m|h` to the end of the text.
unfoldable pub unit_of : Text → Option DurationUnit
unit_of s =
    if text_eq s (codes "ns")
    then some nanoseconds
    else if text_eq s (codes "us")
    then some microseconds
    else if text_eq s (codes "µs")
    then some microseconds
    else if text_eq s (codes "ms")
    then some milliseconds
    else if text_eq s (codes "s")
    then some seconds
    else if text_eq s (codes "m")
    then some minutes
    else if text_eq s (codes "h")
    then some hours
    else none

-- The digits at the front, and what follows them: `\d+` takes all of them, since no unit starts with a
-- digit.
unfoldable pub split_digits : Text → Text × Text
split_digits [] = ([], [])
split_digits (c ∷ s) =
    let rest = split_digits s in if is_digit c then (c ∷ rest.0, rest.1) else ([], c ∷ s)

-- The two groups of `/^(\d+)(ns|us|µs|ms|s|m|h)$/`, the first with its `parseInt`.
unfoldable pub match_groups : Text × Text → Option (ℕ × DurationUnit)
match_groups groups =
    if truthy groups.0
    then (elim (unit_of groups.1) [
      | none ↦ none
      | some unit ↦ some (leading_digits 0 groups.0, unit)
    ])
    else none

unfoldable pub match_duration : Text → Option (ℕ × DurationUnit)
match_duration s = match_groups (split_digits s)

unfoldable pub validate_duration : Text → Bool
validate_duration s = elim (match_duration s) [ none ↦ false | some m ↦ true ]

-- The tests of validateUplinkInterval after the match.
unfoldable pub interval_ok : ℕ → DurationUnit → Bool
interval_ok val milliseconds = if ltb val 1000 then false else if val == 0 then false else true
interval_ok val nanoseconds = false
interval_ok val microseconds = false
interval_ok val unit = if val == 0 then false else true

unfoldable pub validate_uplink_interval : Text → Bool
validate_uplink_interval s = elim (match_duration s) [ none ↦ false | some m ↦ interval_ok m.0 m.1 ]
