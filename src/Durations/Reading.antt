-- ===== src/Durations/Reading.antt =====
-- Which durations are accepted, and how long they are.
use chirpstack_simulator.Prelude.{
  Text, All, ℕ, ◌≡◌, some, codes, is_digit, true, ◌++◌, truthy, ◌↔◌, leading_digits, Bool-cases,
  ◌≤◌, ◌*◌, inl, inr, ap, refl, [], Option-cases, none, Option, arith, if◌then◌else◌, ◌∙◌, text_eq,
  text_eq_iff, false,
}
use chirpstack_simulator.Durations.{
  unit_of, match_duration, DurationUnit, validate_uplink_interval, split_digits, interval_ok,
  nanoseconds, ℕ, true, microseconds, some, codes, is_digit, ◌∷◌, milliseconds, truthy, seconds,
  leading_digits, minutes, hours, match_groups, none, Option, text_eq, false,
}

-- The texts of a unit, and how long it is.
pub data Suffix : DurationUnit → Text → Type 0 where
  is_ns : Suffix nanoseconds (codes "ns")
  is_us : Suffix microseconds (codes "us")
  is_micro : Suffix microseconds (codes "µs")
  is_ms : Suffix milliseconds (codes "ms")
  is_s : Suffix seconds (codes "s")
  is_m : Suffix minutes (codes "m")
  is_h : Suffix hours (codes "h")

abbrev pub in_nanoseconds : DurationUnit → ℕ
in_nanoseconds nanoseconds = 1
in_nanoseconds microseconds = 1000
in_nanoseconds milliseconds = 1_000_000
in_nanoseconds seconds = 1_000_000_000
in_nanoseconds minutes = 60_000_000_000
in_nanoseconds hours = 3600_000_000_000

-- A text that is a number in base ten, of at least one digit, and then a unit.
pub record Reads (text : Text) (n : ℕ) (unit : DurationUnit) : Type 0 where
  pub digits : Text
  pub suffix : Text
  pub all_digits : All (λ c. is_digit c ≡ true) digits
  pub some_digit : truthy digits ≡ true
  pub suffix_ok : Suffix unit suffix
  pub whole : text ≡ digits ++ suffix
  pub value : leading_digits 0 digits ≡ n

split_append :
    (digits suffix : Text) {unit : DurationUnit}
    → All (λ c. is_digit c ≡ true) digits
    → Suffix unit suffix
    → split_digits (digits ++ suffix) ≡ (digits, suffix)
unfolding split_digits
split_append [] suffix a is_ns = refl
split_append [] suffix a is_us = refl
split_append [] suffix a is_micro = refl
split_append [] suffix a is_ms = refl
split_append [] suffix a is_s = refl
split_append [] suffix a is_m = refl
split_append [] suffix a is_h = refl
split_append (c ∷ digits) suffix a u = simp (a.0, split_append digits suffix a.1 u) refl

split_whole : (text : Text) → text ≡ (split_digits text).0 ++ (split_digits text).1
unfolding split_digits
split_whole [] = refl
split_whole (c ∷ s) = elim (Bool-cases (is_digit c)) [
  | inl e ↦ simp e (ap (c ∷◌) (split_whole s))
  | inr e ↦ simp e refl
]

split_all : (text : Text) → All (λ c. is_digit c ≡ true) (split_digits text).0
unfolding split_digits
split_all [] = tt
split_all (c ∷ s) = elim (Bool-cases (is_digit c)) [
  | inl e ↦ simp e (refl, split_all s)
  | inr e ↦ simp e tt
]

unit_of-Suffix :
    {unit : DurationUnit} (suffix : Text) → Suffix unit suffix → unit_of suffix ≡ some unit
unfolding unit_of
unit_of-Suffix suffix is_ns = refl
unit_of-Suffix suffix is_us = refl
unit_of-Suffix suffix is_micro = refl
unit_of-Suffix suffix is_ms = refl
unit_of-Suffix suffix is_s = refl
unit_of-Suffix suffix is_m = refl
unit_of-Suffix suffix is_h = refl

-- One test of the chain in `unit_of`.
suffix_case :
    (text w : Text) (v unit : DurationUnit) (others : Option DurationUnit)
    → Suffix v w
    → (others ≡ some unit → Suffix unit text)
    → (if text_eq text w then some v else others) ≡ some unit
    → Suffix unit text
suffix_case text w v unit others fits rest e = elim (Bool-cases (text_eq text w)) [
  | inl t ↦
      let same : text ≡ w = (text_eq_iff text w).0 t in
      let same_unit : v ≡ unit = cc (simp t at e) in rw (same, ← same_unit) fits
  | inr t ↦ rest (simp t at e)
]

Suffix-unit_of : (unit : DurationUnit) (text : Text) → unit_of text ≡ some unit → Suffix unit text
unfolding unit_of
Suffix-unit_of unit text = suffix_case text (codes "ns") nanoseconds unit _ is_ns (
    suffix_case text (codes "us") microseconds unit _ is_us (
      suffix_case text (codes "µs") microseconds unit _ is_micro (
        suffix_case text (codes "ms") milliseconds unit _ is_ms (
          suffix_case text (codes "s") seconds unit _ is_s (
            suffix_case text (codes "m") minutes unit _ is_m
              (suffix_case text (codes "h") hours unit none is_h (λ e. absurd cc)))))))

-- What a match says of its groups.
match_groups_inv :
    (digits rest : Text) (n : ℕ) (unit : DurationUnit)
    → match_groups (digits, rest) ≡ some (n, unit)
    → (truthy digits ≡ true) × (unit_of rest ≡ some unit) × (leading_digits 0 digits ≡ n)
unfolding match_groups
match_groups_inv [] rest n unit e = absurd cc
match_groups_inv (c ∷ digits) rest n unit e = elim (Option-cases (unit_of rest)) [
  | inl none_found ↦ absurd (cc (simp none_found at e))
  | inr (v, found) ↦
      let both : some (leading_digits 0 (c ∷ digits), v) ≡ some (n, unit) = simp found at e in
      (refl, found ∙ cc both, cc both)
]

match_Reads :
    (text : Text) (n : ℕ) (unit : DurationUnit)
    → match_duration text ≡ some (n, unit)
    → Reads text n unit
unfolding match_duration
match_Reads text n unit e =
    let inv = match_groups_inv (split_digits text).0 (split_digits text).1 n unit e in
    record {
      digits = (split_digits text).0;
      suffix = (split_digits text).1;
      all_digits = split_all text;
      some_digit = inv.0;
      suffix_ok = Suffix-unit_of unit (split_digits text).1 inv.1;
      whole = split_whole text;
      value = inv.2;
    }

match_groups_read :
    (digits rest : Text) (unit : DurationUnit)
    → truthy digits ≡ true
    → unit_of rest ≡ some unit
    → match_groups (digits, rest) ≡ some (leading_digits 0 digits, unit)
unfolding match_groups
match_groups_read digits rest unit t u = simp (t, u) refl

Reads-match :
    (text : Text) (n : ℕ) (unit : DurationUnit)
    → Reads text n unit
    → match_duration text ≡ some (n, unit)
unfolding match_duration
Reads-match text n unit r =
    let groups =
      ap split_digits r.whole ∙ split_append r.digits r.suffix r.all_digits r.suffix_ok in
    ap match_groups groups
    ∙ match_groups_read r.digits r.suffix unit r.some_digit (unit_of-Suffix r.suffix r.suffix_ok)
    ∙ ap (λ k. some (k, unit)) r.value

interval_ok_iff :
    (n : ℕ) (unit : DurationUnit)
    → (interval_ok n unit ≡ true)
      ↔ ((1_000_000 ≤ in_nanoseconds unit) × (1_000_000_000 ≤ n * in_nanoseconds unit))
unfolding interval_ok
interval_ok_iff n nanoseconds = ground arith
interval_ok_iff n microseconds = ground arith
interval_ok_iff n milliseconds = ground arith
interval_ok_iff n seconds = ground arith
interval_ok_iff n minutes = ground arith
interval_ok_iff n hours = ground arith

accepted_inv :
    (m : Option (ℕ × DurationUnit))
    → elim m [ none ↦ false | some g ↦ interval_ok g.0 g.1 ] ≡ true
    → (n : ℕ) × (unit : DurationUnit) × (m ≡ some (n, unit)) × (interval_ok n unit ≡ true)
accepted_inv none e = absurd cc
accepted_inv (some (n, unit)) e = (n, unit, refl, e)

accepted_Reads :
    (text : Text)
    → validate_uplink_interval text ≡ true
    → (n : ℕ) × (unit : DurationUnit) × Reads text n unit
      × (1_000_000 ≤ in_nanoseconds unit)
      × (1_000_000_000 ≤ n * in_nanoseconds unit)
unfolding validate_uplink_interval
accepted_Reads text e =
    let (n, unit, found, ok) = accepted_inv (match_duration text) e in
    let long = (interval_ok_iff n unit).0 ok in
    (n, unit, match_Reads text n unit found, long.0, long.1)

accepted_of :
    (m : Option (ℕ × DurationUnit)) (n : ℕ) (unit : DurationUnit)
    → m ≡ some (n, unit)
    → interval_ok n unit ≡ true
    → elim m [ none ↦ false | some g ↦ interval_ok g.0 g.1 ] ≡ true
accepted_of m n unit e ok =
    ap (λ (o : Option (ℕ × DurationUnit)). elim o [ none ↦ false | some g ↦ interval_ok g.0 g.1 ]) e
    ∙ ok

Reads-accepted :
    (text : Text) (n : ℕ) (unit : DurationUnit)
    → Reads text n unit
    → 1_000_000 ≤ in_nanoseconds unit
    → 1_000_000_000 ≤ n * in_nanoseconds unit
    → validate_uplink_interval text ≡ true
unfolding validate_uplink_interval
Reads-accepted text n unit reads coarse long =
    accepted_of (match_duration text) n unit (Reads-match text n unit reads)
      ((interval_ok_iff n unit).1 (coarse, long))

-- validateUplinkInterval accepts exactly the texts that are a whole number of milliseconds, seconds,
-- minutes or hours and that last a second or more.
pub validate_uplink_interval_iff :
    (text : Text)
    → (validate_uplink_interval text ≡ true) ↔ (
        (n : ℕ) × (unit : DurationUnit) × Reads text n unit
        × (1_000_000 ≤ in_nanoseconds unit)
        × (1_000_000_000 ≤ n * in_nanoseconds unit))
validate_uplink_interval_iff text = (
  accepted_Reads text,
  λ (n, unit, reads, coarse, long). Reads-accepted text n unit reads coarse long,
)
