-- ===== src/Console.antt =====
-- internal/api/frontend/js/tabs/console.js: the live log console, its filters and its 300 lines. The
-- pulse on the map that a line with metadata starts is left out.
pub mod Filters
use chirpstack_simulator.Prelude.{
  ◌%◌, List, Option, Bool, Text, ℕ, map, none, true, replicate, includes, ◌∷◌, if◌then◌else◌, ◌++◌,
  trim, false, [], ◌==◌, ltb, codes, some, starts_with, ◌-◌, drop, ◌&&◌, length, ◌||◌, ◌+◌, truthy,
  not, ◌/◌,
}
use chirpstack_simulator.State.{Engine}
use Prim.Native.Nat.{ℕ}

-- Date and time of the browser: `none` is an invalid date.
pub record Clock : Type 0 where
  pub hours : ℕ
  pub minutes : ℕ
  pub seconds : ℕ

pub data Source : Type 0 where
  local remote : Source

pub data Color : Type 0 where
  inherited cyan red yellow blue accent : Color

pub record Line : Type 0 where
  pub content : Text
  pub source : Source
  pub color : Color
  pub shown : Bool

-- The two inputs of the filter bar. The source's options are "all" and the two sources.
pub record Filter : Type 0 where
  pub source_val : Option Source
  pub log_filter : Text

pub record Console : Type 0 where
  pub placeholder : Bool
  pub lines : List Line
  pub filter : Filter

-- `n.toString()` of a number below 100, and `padStart(2, "0")` of it.
unfoldable pub digits_100 : ℕ → Text
digits_100 n = if ltb n 10 then (b'0' + n) ∷ [] else (b'0' + n / 10) ∷ (b'0' + n % 10) ∷ []

unfoldable pub pad_start : Text → Text
pad_start s = replicate (2 - length s) b'0' ++ s

unfoldable pub local_ts : Clock → Text
unfolding pad_start digits_100
local_ts clock =
    pad_start (digits_100 clock.hours)
    ++ codes ":"
    ++ pad_start (digits_100 clock.minutes)
    ++ codes ":"
    ++ pad_start (digits_100 clock.seconds)

-- The group of `/^\[([^\]]+)\]/`: what stands between a bracket at the front and the next `]`.
unfoldable pub up_to_bracket : Text → Option Text
up_to_bracket [] = none
up_to_bracket (c ∷ s) =
    let rest = up_to_bracket s in
    if c == b']' then some [] else (elim rest [ none ↦ none | some ts ↦ some (c ∷ ts) ])

unfoldable pub raw_timestamp : Text → Option Text
unfolding up_to_bracket
raw_timestamp [] = none
raw_timestamp (c ∷ s) =
    if c == b'['
    then (elim (up_to_bracket s) [ none ↦ none | some ts ↦ if truthy ts then some ts else none ])
    else none

-- `line.replace(old, new)`: the first occurrence only.
unfoldable pub replace_first : Text → Text → Text → Text
replace_first old new [] = if starts_with old [] then new else []
replace_first old new (c ∷ s) =
    let rest = replace_first old new s in
    if starts_with old (c ∷ s) then new ++ drop (length old) (c ∷ s) else c ∷ rest

unfoldable pub localize : (Text → Option Clock) → Text → Text
unfolding raw_timestamp
localize date line = elim (raw_timestamp line) [
  | none ↦ line
  | some raw_ts ↦ elim (date raw_ts) [
    | none ↦ line
    | some clock ↦ replace_first raw_ts (local_ts clock) line
  ]
]

unfoldable pub is_remote : Text → Bool
is_remote lower_line =
    includes (codes "as/integration") lower_line
    || includes (codes "[chirpstack integration]") lower_line
    || includes (codes "as/debug") lower_line

unfoldable pub color_of : Text → Color
color_of lower_line =
    if is_remote lower_line
    then cyan
    else if includes (codes " level=error") lower_line
        || includes (codes "error:") lower_line
        || includes (codes " level=fatal") lower_line
    then red
    else if includes (codes " level=warn") lower_line || includes (codes "warn:") lower_line
    then yellow
    else if includes (codes "received downlink") lower_line
        || includes (codes "downlink frame") lower_line
        || includes (codes "received downlink data") lower_line
        || includes (codes "otaa activated") lower_line
        || includes (codes "join accept") lower_line
    then blue
    else if includes (codes "send uplink") lower_line
        || includes (codes "uplink frame sent") lower_line
        || includes (codes "send otaa") lower_line
    then accent
    else inherited

unfoldable pub source_eq : Source → Source → Bool
source_eq local local = true
source_eq remote remote = true
source_eq _ _ = false

-- `matchesSource && matchesText` of appendConsoleLog, for the line that comes in.
unfoldable pub passes : Engine → Filter → Source → Text → Bool
unfolding source_eq
passes js filter source line =
    let filter_val = js.to_lower (trim filter.log_filter) in
    (elim filter.source_val [ none ↦ true | some val ↦ source_eq source val ])
    && (not (truthy filter_val) || includes filter_val (js.to_lower line))

-- The same two tests in applyConsoleFilters, for an element that is there.
unfoldable pub matches_filters : Engine → Filter → Line → Bool
unfolding source_eq
matches_filters js filter el =
    let filter_val = js.to_lower (trim filter.log_filter) in
    let matches_source : Bool = elim filter.source_val [
      | none ↦ true
      | some val ↦ source_eq el.source val
    ] in
    let matches_text = not (truthy filter_val) || includes filter_val (js.to_lower el.content) in
    matches_source && matches_text

pub show_line : Engine → Filter → Line → Line
show_line js filter el = record {
  content = el.content;
  source = el.source;
  color = el.color;
  shown = matches_filters js filter el;
}

unfoldable pub new_line : Engine → (Text → Option Clock) → Filter → Text → Line
new_line js date filter raw =
    let line = localize date raw in
    let lower_line = js.to_lower line in
    let source = if is_remote lower_line then remote else local in
    record {
      content = line;
      source = source;
      color = color_of lower_line;
      shown = passes js filter source line;
    }

-- `while (children.length > 300) removeChild(firstChild)`
unfoldable pub drop_oldest : List Line → List Line
drop_oldest [] = []
drop_oldest (el ∷ rest) =
    let fewer = drop_oldest rest in if ltb 300 (length (el ∷ rest)) then fewer else el ∷ rest

unfoldable pub append_console_log : Engine → (Text → Option Clock) → Text → Console → Console
append_console_log js date line console = record {
  placeholder = false;
  lines = drop_oldest (console.lines ++ new_line js date console.filter line ∷ []);
  filter = console.filter;
}

pub apply_console_filters : Engine → Console → Console
apply_console_filters js console = record {
  placeholder = console.placeholder;
  lines = map (show_line js console.filter) console.lines;
  filter = console.filter;
}

-- The lines of a stream, one after the other.
pub append_all : Engine → (Text → Option Clock) → List Text → Console → Console
append_all js date [] console = console
append_all js date (line ∷ rest) console =
    append_all js date rest (append_console_log js date line console)
