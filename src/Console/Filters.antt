-- ===== src/Console/Filters.antt =====
-- What the console shows, and how many lines it keeps.
use mathlib.Core.Path.{subst}
use chirpstack_simulator.Prelude.{
  zero, suc, Text, Option, List, ◌++◌, ◌≡◌, ℕ, drop, ◌∷◌, suc, length, length-map, ap, [], ◌-◌,
  refl, take, Bool-cases, min, take-append-drop, ltb, inl, arith, length-drop, ltb→lt, inr, trim,
  Bool, ◌⊎◌, All, true, truthy, includes, none, ◌||◌, ◌↔◌, ◌&&◌, and_parts,
}
use chirpstack_simulator.State.{Engine}
use chirpstack_simulator.Console.{
  apply_console_filters, drop_oldest, Line, Console, show_line, append_all, Clock, Filter,
  append_console_log, ℕ, List, new_line, map, drop, ◌∷◌, [], length, ltb, matches_filters, trim,
  passes, not, Source, source_eq, Bool, includes, true, truthy, some, local, remote,
}

drop_oldest_lem : (els : List Line) → drop_oldest els ≡ drop (length els - 300) els
unfolding drop_oldest
drop_oldest_lem [] = refl
drop_oldest_lem (el ∷ rest) = elim (Bool-cases (ltb 300 (suc (length rest)))) [
  | inl e ↦
      let big = ltb→lt 300 (suc (length rest)) e in
      let n : suc (length rest) - 300 ≡ suc (length rest - 300) = omega arith in
      rw (e, n, drop_oldest_lem rest) refl
  | inr e ↦ let n : suc (length rest) - 300 ≡ 0 = ground arith in rw (e, n) refl
]

-- The console keeps the newest lines, 300 of them at most: what it drops, it drops from the front, and
-- only what is beyond 300 lines.
pub append_console_log-newest :
    (js : Engine) (date : Text → Option Clock) (line : Text) (console : Console)
    → let before = console.lines ++ new_line js date console.filter line ∷ [] in
      let after = (append_console_log js date line console).lines in
      (take (length before - 300) before ++ after ≡ before)
      × (length after ≡ min 300 (length before))
unfolding append_console_log
append_console_log-newest js date line console =
    let before = console.lines ++ new_line js date console.filter line ∷ [] in
    rw (drop_oldest_lem before) (
      (
        take-append-drop (length before - 300) before,
        omega (arith, length-drop (length before - 300) before),
      ))

-- The console is as applying its filters again would leave it.
abbrev pub IsFixed : Engine → Console → Type 0
IsFixed js console = apply_console_filters js console ≡ console

show_line-twice :
    (js : Engine) (filter : Filter) (el : Line)
    → show_line js filter (show_line js filter el) ≡ show_line js filter el
unfolding show_line matches_filters
show_line-twice js filter el = refl

show_line-new_line :
    (js : Engine) (date : Text → Option Clock) (filter : Filter) (line : Text)
    → show_line js filter (new_line js date filter line) ≡ new_line js date filter line
unfolding show_line new_line passes matches_filters
show_line-new_line js date filter line = refl

map-twice :
    (js : Engine) (filter : Filter) (els : List Line)
    → map (show_line js filter) (map (show_line js filter) els) ≡ map (show_line js filter) els
map-twice js filter [] = refl
map-twice js filter (el ∷ els) = rw (show_line-twice js filter el, map-twice js filter els)

map-append : (f : Line → Line) (xs ys : List Line) → map f (xs ++ ys) ≡ map f xs ++ map f ys
map-append f [] ys = refl
map-append f (x ∷ xs) ys = ap (f x ∷◌) (map-append f xs ys)

map-drop : (f : Line → Line) (n : ℕ) (xs : List Line) → map f (drop n xs) ≡ drop n (map f xs)
map-drop f zero xs = refl
map-drop f (suc n) [] = refl
map-drop f (suc n) (x ∷ xs) = map-drop f n xs

map-drop_oldest :
    (f : Line → Line) (els : List Line) → map f (drop_oldest els) ≡ drop_oldest (map f els)
map-drop_oldest f els = rw (
  drop_oldest_lem els,
  drop_oldest_lem (map f els),
  length-map els f,
  map-drop f (length els - 300) els,
)

-- Filtering the console again after a line came in is the same as letting the line come in after
-- filtering: a new line is shown by the same rule as the lines that are there.
pub apply_console_filters-append_console_log :
    (js : Engine) (date : Text → Option Clock) (line : Text) (console : Console)
    → apply_console_filters js (append_console_log js date line console)
      ≡ append_console_log js date line (apply_console_filters js console)
unfolding apply_console_filters append_console_log
apply_console_filters-append_console_log js date line console =
    let fresh = new_line js date console.filter line in
    rw
      (
        map-drop_oldest (show_line js console.filter) (console.lines ++ fresh ∷ []),
        map-append (show_line js console.filter) console.lines (fresh ∷ []),
        show_line-new_line js date console.filter line,
      )
      refl

settled : (js : Engine) (console : Console) → IsFixed js (apply_console_filters js console)
unfolding apply_console_filters
settled js console = rw (map-twice js console.filter console.lines) refl

all_IsFixed :
    (js : Engine) (date : Text → Option Clock) (lines : List Text) (console : Console)
    → IsFixed js console
    → IsFixed js (append_all js date lines console)
unfolding append_all
all_IsFixed js date [] console h = h
all_IsFixed js date (line ∷ lines) console h =
    all_IsFixed js date lines (append_console_log js date line console)
      (rw h at (apply_console_filters-append_console_log js date line console))

-- What the source of a line and its text have to be for a filter: the chosen source, if one is chosen,
-- and a text that contains the filter text, if that is not blank, both without regard to case.
abbrev pub FromSource : Option Source → Line → Type 0
FromSource none el = Unit
FromSource (some val) el = el.source ≡ val

abbrev pub Mentions : Engine → Text → Line → Type 0
Mentions js q el = (q ≡ []) ⊎ (includes q (js.to_lower el.content) ≡ true)

abbrev pub Fits : Engine → Filter → Line → Type 0
Fits js filter el =
    FromSource filter.source_val el × Mentions js (js.to_lower (trim filter.log_filter)) el

-- Every line of the console is on the screen exactly if it fits the filter.
abbrev pub InStep : Engine → Console → Type 0
InStep js console = All (λ (el : Line). (el.shown ≡ true) ↔ Fits js console.filter el) console.lines

source_eq_iff : (a b : Source) → (source_eq a b ≡ true) ↔ (a ≡ b)
unfolding source_eq
source_eq_iff local local = (λ e. refl, λ e. refl)
source_eq_iff local remote = (λ e. absurd cc, λ e. absurd cc)
source_eq_iff remote local = (λ e. absurd cc, λ e. absurd cc)
source_eq_iff remote remote = (λ e. refl, λ e. refl)

source_iff :
    (val : Option Source) (el : Line)
    → ((elim val [ none ↦ true | some v ↦ source_eq el.source v ]) ≡ true) ↔ FromSource val el
unfolding source_eq
source_iff none el = (λ e. tt, λ e. refl)
source_iff (some val) el = source_eq_iff el.source val

Mentions-iff :
    (js : Engine) (q : Text) (el : Line)
    → ((not (truthy q) || includes q (js.to_lower el.content)) ≡ true) ↔ Mentions js q el
Mentions-iff js [] el = (λ e. inl refl, λ e. refl)
Mentions-iff js (c ∷ q) el = (λ e. inr e, λ m. elim m [ inl e ↦ absurd (cc e) | inr e ↦ e ])

and_iff :
    {P Q : Type 0} (a b : Bool) → (a ≡ true) ↔ P → (b ≡ true) ↔ Q → ((a && b) ≡ true) ↔ (P × Q)
and_iff a b p q = (
  λ e. let parts = and_parts a b e in (p.0 parts.0, q.0 parts.1),
  λ pair. rw (p.1 pair.0, q.1 pair.1) refl,
)

matches_filters_iff :
    (js : Engine) (filter : Filter) (el : Line)
    → (matches_filters js filter el ≡ true) ↔ Fits js filter el
unfolding matches_filters
matches_filters_iff js filter el =
    and_iff _ _ (source_iff filter.source_val el)
      (Mentions-iff js (js.to_lower (trim filter.log_filter)) el)

fixed-InStep :
    (js : Engine) (filter : Filter) (els : List Line)
    → map (show_line js filter) els ≡ els
    → All (λ (el : Line). (el.shown ≡ true) ↔ Fits js filter el) els
unfolding show_line
fixed-InStep js filter [] e = tt
fixed-InStep js filter (el ∷ els) e =
    let same : show_line js filter el ≡ el = cc in
    let shown : matches_filters js filter el ≡ el.shown = ap (λ (line : Line). line.shown) same in
    (
      subst (λ (b : Bool). (b ≡ true) ↔ Fits js filter el) shown (matches_filters_iff js filter el),
      fixed-InStep js filter els cc,
    )

-- Once the filters are applied, and however many lines of a stream come in after that, a line of the
-- console is on the screen exactly if its source is the chosen one, where one is chosen, and its text
-- contains the filter text, where that is not blank; case does not count, and neither do the blanks
-- round the filter text.
pub append_all-InStep :
    (js : Engine) (date : Text → Option Clock) (lines : List Text) (console : Console)
    → InStep js (append_all js date lines (apply_console_filters js console))
unfolding apply_console_filters
append_all-InStep js date lines console =
    let after = append_all js date lines (apply_console_filters js console) in
    let fixed = all_IsFixed js date lines (apply_console_filters js console) (settled js console) in
    fixed-InStep js after.filter after.lines (ap (λ (c : Console). c.lines) fixed)
