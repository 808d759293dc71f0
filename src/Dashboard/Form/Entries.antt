-- ===== src/Dashboard/Form/Entries.antt =====
-- What the configuration of a start holds.
use mathlib.Core.Path.{◌≡◌, subst}
use chirpstack_simulator.Dashboard.Form.Blanks.{AreBlank, IsBare, nothing, between, trimmed}
use chirpstack_simulator.Prelude.Decimals.{parse_ℤ}
use chirpstack_simulator.Dashboard.Form.{
  FormField, form_fields, Kind, read, Value, text, number, floating, Setting, read_field,
  put_setting, collect_from, collect_config, setting, Text, List, Option, ◌∷◌, text_eq, none, some,
}
use chirpstack_simulator.Prelude.{
  ◌≡◌, List, Text, true, Option, Bool, text_eq, none, refl, All, false, arith, [], ◌&&◌, not, ◌∙◌,
  text_eq_refl, text_ne_sym, codes, map, truthy, trim, sym, ◌++◌,
}

-- No two fields of the form have one key.
unfoldable distinct_from : Text → List FormField → Bool
distinct_from key [] = true
distinct_from key (f ∷ fields) = not (text_eq f.key key) && distinct_from key fields

distinct : List FormField → Bool
distinct [] = true
distinct (f ∷ fields) = distinct_from f.key fields && distinct fields

form_fields-distinct : distinct form_fields ≡ true
unfolding distinct distinct_from form_fields
form_fields-distinct = refl

module _ {Float : Type 0} (parse_float : Text → Float) (element : Text → Option Text) where
  put_other :
      (key other : Text) (o : Option (Value parse_float)) (cfg : List (Setting parse_float))
      → text_eq other key ≡ false
      → setting parse_float key (put_setting parse_float other o cfg) ≡ setting parse_float key cfg
  unfolding put_setting setting
  put_other key other none cfg e = refl
  put_other key other (some value) cfg e = rw e refl

  absent :
      (key : Text) (fields : List FormField)
      → distinct_from key fields ≡ true
      → setting parse_float key (collect_from parse_float element fields) ≡ none
  unfolding distinct_from collect_from
  absent key [] e = unfold setting in refl
  absent key (f ∷ fields) e =
      put_other key f.key _ _ (ground (arith, e)) ∙ absent key fields (ground (arith, e))

  -- What a field of the form stands for in the configuration.
  abbrev Holds : List (Setting parse_float) → FormField → Type 0
  Holds cfg f = setting parse_float f.key cfg ≡ read_field parse_float (element f.key) f.kind

  first_field :
      (f : FormField) (o : Option (Value parse_float)) (cfg : List (Setting parse_float))
      → setting parse_float f.key cfg ≡ none
      → setting parse_float f.key (put_setting parse_float f.key o cfg) ≡ o
  unfolding put_setting setting
  first_field f none cfg e = e
  first_field f (some value) cfg e = rw (text_eq_refl f.key) refl

  All-put :
      (key : Text) (o : Option (Value parse_float)) (cfg : List (Setting parse_float))
      (fields : List FormField)
      → distinct_from key fields ≡ true
      → All (Holds cfg) fields
      → All (Holds (put_setting parse_float key o cfg)) fields
  unfolding distinct_from
  All-put key o cfg [] e h = tt
  All-put key o cfg (f ∷ fields) e h =
      let other : text_eq key f.key ≡ false = text_ne_sym f.key key (ground (arith, e)) in
      (put_other f.key key o cfg other ∙ h.0, All-put key o cfg fields (ground (arith, e)) (h.1))

  collect_from-Holds :
      (fields : List FormField)
      → distinct fields ≡ true
      → All (Holds (collect_from parse_float element fields)) fields
  unfolding distinct collect_from
  collect_from-Holds [] e = tt
  collect_from-Holds (f ∷ fields) e =
      let fresh : distinct_from f.key fields ≡ true = ground (arith, e) in
      (
        first_field f (read_field parse_float (element f.key) f.kind) _ (absent f.key fields fresh),
        All-put f.key _ _ fields fresh (collect_from-Holds fields (ground (arith, e))),
      )

  -- What an element says: nothing where it is missing or has only blanks, and else the reading of the
  -- text between the blanks around it.
  pub data Reads
      : (Text → Value parse_float) → Option Text → Option (Value parse_float) → Type 0 where
    missing : {as_value : Text → Value parse_float} → Reads as_value none none
    blank :
        {as_value : Text → Value parse_float} {s : Text} → AreBlank s → Reads as_value (some s) none
    typed :
        {as_value : Text → Value parse_float} (front body back : Text)
        → AreBlank front
        → AreBlank back
        → IsBare body
        → Reads as_value (some (front ++ (body ++ back))) (some (as_value body))

  abbrev Entry : Type 0
  Entry = Text × (Text → Value parse_float)

  abbrev texts : Text → Entry
  texts key = (key, λ (s : Text). text s)

  abbrev integers : Text → Entry
  integers key = (key, λ (s : Text). number (parse_ℤ s))

  abbrev floats : Text → Entry
  floats key = (key, λ (s : Text). floating (parse_float s))

  -- The keys that a start takes, each with its type.
  abbrev pub expected : List Entry
  expected =
      texts (codes "tenant_id")
      ∷ texts (codes "app_name")
      ∷ texts (codes "device_prefix")
      ∷ texts (codes "duration")
      ∷ texts (codes "activation_time")
      ∷ integers (codes "device_count")
      ∷ integers (codes "gateway_count")
      ∷ texts (codes "uplink_interval")
      ∷ integers (codes "f_port")
      ∷ texts (codes "payload")
      ∷ integers (codes "frequency")
      ∷ integers (codes "bandwidth")
      ∷ integers (codes "spreading_factor")
      ∷ texts (codes "event_topic_template")
      ∷ texts (codes "command_topic_template")
      ∷ floats (codes "packet_loss")
      ∷ integers (codes "latency_ms")
      ∷ texts (codes "payload_script")
      ∷ []

  abbrev pub Carries : List (Setting parse_float) → Entry → Type 0
  Carries cfg row = Reads (row.1) (element (row.0)) (setting parse_float (row.0) cfg)

  abbrev entry_of : FormField → Entry
  entry_of f = (f.key, read parse_float f.kind)

  expected-form_fields : expected ≡ map entry_of form_fields
  unfolding form_fields read
  expected-form_fields = refl

  read_field-Reads :
      (o : Option Text) (kind : Kind)
      → Reads (read parse_float kind) o (read_field parse_float o kind)
  unfolding read_field
  read_field-Reads none kind = missing
  read_field-Reads (some s) kind = elim (trimmed s) [
    | nothing empty e ↦
        let given : read_field parse_float (some s) kind ≡ none = rw e refl in
        subst (Reads (read parse_float kind) (some s)) (sym given) (blank empty)
    | between front body back before behind bare k e ↦
        let full : truthy (trim s) ≡ true = rw (e, bare.starts) refl in
        let given : read_field parse_float (some s) kind ≡ some (read parse_float kind body) =
          rw (full, e) refl in
        subst (Reads (read parse_float kind) (some s)) (sym given) (
          subst
            (λ (x : Text).
              Reads (read parse_float kind) (some x) (some (read parse_float kind body)))
            (sym k) (typed front body back before behind bare))
  ]

  All-Carries :
      (cfg : List (Setting parse_float)) (fields : List FormField)
      → All (Holds cfg) fields
      → All (Carries cfg) (map entry_of fields)
  All-Carries cfg [] h = tt
  All-Carries cfg (f ∷ fields) h = (
    subst (Reads (read parse_float f.kind) (element f.key)) (sym (h.0))
        (read_field-Reads (element f.key) f.kind),
    All-Carries cfg fields (h.1),
  )

  others_distinct :
      (key : Text) (fields : List FormField)
      → All (λ (row : Entry). text_eq (row.0) key ≡ false) (map entry_of fields)
      → distinct_from key fields ≡ true
  unfolding distinct_from
  others_distinct key [] h = refl
  others_distinct key (f ∷ fields) h = rw (h.0, others_distinct key fields (h.1)) refl

  -- Under each of the eighteen keys that a start takes, the configuration has nothing where the element
  -- is missing or has only blanks, and else the text between the blanks around it, read as the text,
  -- the integer or the float that goes with the key; under every other key it has nothing.
  pub collect_config-Holds :
      (key : Text)
      → All (λ (row : Entry). text_eq (row.0) key ≡ false) expected
      → All (Carries (collect_config parse_float element)) expected
        × (setting parse_float key (collect_config parse_float element) ≡ none)
  unfolding collect_config
  collect_config-Holds key other =
      let kept = collect_from-Holds form_fields form_fields-distinct in
      (
        subst (All (Carries (collect_config parse_float element))) (sym expected-form_fields)
            (All-Carries _ form_fields kept),
        absent key form_fields (
            others_distinct key form_fields (
              subst (All (λ (row : Entry). text_eq (row.0) key ≡ false)) expected-form_fields
                other)),
      )
