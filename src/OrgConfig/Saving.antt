-- ===== src/OrgConfig/Saving.antt =====
-- What saveOrgConfig sends, and what it leaves as it was when it sends nothing or is refused.
use chirpstack_simulator.Prelude.{
  Text, Bool, true, false, not, ◌&&◌, Option, none, some, List, [], ◌∷◌, codes, text_eq,
  text_eq_iff, truthy, trim, if◌then◌else◌, ◌≡◌, refl, ap, ◌∙◌, ◌⊎◌, inl, inr, Bool-cases,
}
use chirpstack_simulator.Durations.{validate_duration, validate_uplink_interval}
use chirpstack_simulator.OrgConfig.{
  Floats, Fields, Config, Page, SaveEntry, ConfigRequest, post_config, put_organization, config_of,
  check_durations, needs_rename, rename_first, post, save_org_config, log_entry,
  bad_uplink_interval, bad_duration, bad_activation_time, renamed, save_checked,
}

-- Texts of durations that may be sent.
abbrev pub DurationOk : Text → Type 0
DurationOk d = (d ≡ []) ⊎ (d ≡ codes "0s") ⊎ (validate_duration d ≡ true)

abbrev pub ActivationOk : Text → Type 0
ActivationOk a = (a ≡ []) ⊎ (validate_duration a ≡ true)

truthy_not : (t : Text) → truthy t ≡ false → t ≡ []
truthy_not [] h = refl
truthy_not (c ∷ t) h = absurd cc

duration_case :
    (d : Text)
    → (truthy d && not (text_eq d (codes "0s")) && not (validate_duration d)) ≡ false
    → DurationOk d
duration_case d h = elim (Bool-cases (truthy d)) [
  | inr e ↦ inl (truthy_not d e)
  | inl t ↦ elim (Bool-cases (text_eq d (codes "0s"))) [
    | inl e ↦ inr (inl ((text_eq_iff d (codes "0s")).0 e))
    | inr e ↦ elim (Bool-cases (validate_duration d)) [
      | inl v ↦ inr (inr v)
      | inr v ↦ absurd (cc (simp (t, e, v) at h))
    ]
  ]
]

activation_case : (a : Text) → (truthy a && not (validate_duration a)) ≡ false → ActivationOk a
activation_case a h = elim (Bool-cases (truthy a)) [
  | inr e ↦ inl (truthy_not a e)
  | inl t ↦ elim (Bool-cases (validate_duration a)) [
    | inl v ↦ inr v
    | inr v ↦ absurd (cc (simp (t, v) at h))
  ]
]

first_none :
    (a b c : Bool) (x y z : SaveEntry)
    → (if not a then some x else if b then some y else if c then some z else none) ≡ none
    → (a ≡ true) × (b ≡ false) × (c ≡ false)
first_none true true c x y z h = absurd cc
first_none true false true x y z h = absurd cc
first_none true false false x y z h = (refl, refl, refl)
first_none false b c x y z h = absurd cc

check_durations-none :
    (f : Fields)
    → check_durations f ≡ none
    → (validate_uplink_interval (trim f.uplink_interval) ≡ true)
      × DurationOk (trim f.duration)
      × ActivationOk (trim f.activation_time)
unfolding check_durations
check_durations-none f h =
    let parts = first_none _ _ _ bad_uplink_interval bad_duration bad_activation_time h in
    (
      parts.0,
      duration_case (trim f.duration) parts.1,
      activation_case (trim f.activation_time) parts.2,
    )

module _ (floats : Floats) where
  -- The configuration that was sent, if one was.
  abbrev pub posted : List (ConfigRequest floats) → Option (Config floats)
  posted [] = none
  posted (put_organization id name ∷ rs) = posted rs
  posted (post_config id c ∷ rs) = some c

  post_sends :
      (org_id : Text) (accepts : Bool) (p : Page floats) (c : Config floats)
      → posted (post floats org_id accepts p).1 ≡ some c
      → (c ≡ config_of floats p.active_org_config p.fields)
        × ((post floats org_id accepts p).0.active_org_config
            ≡ (if accepts then some c else p.active_org_config))
  unfolding post
  post_sends org_id true p c h = (cc h, h)
  post_sends org_id false p c h = (cc h, refl)

  checked_sends :
      (org_id : Text) (accepts_name accepts : Bool) (p : Page floats) (c : Config floats)
      (wrong : Option SaveEntry) (needs : Bool)
      → posted (save_checked floats org_id accepts_name accepts p wrong needs).1 ≡ some c
      → (wrong ≡ none)
        × ((needs ≡ false) ⊎ (accepts_name ≡ true))
        × (c ≡ config_of floats p.active_org_config p.fields)
        × ((save_checked floats org_id accepts_name accepts p wrong needs).0.active_org_config
            ≡ (if accepts then some c else p.active_org_config))
  unfolding save_checked
  checked_sends org_id an accepts p c (some e) needs h = absurd cc
  checked_sends org_id an accepts p c none false h =
      let sent = post_sends org_id accepts p c h in (refl, inl refl, sent.0, sent.1)
  checked_sends org_id false accepts p c none true h = absurd cc
  checked_sends org_id true accepts p c none true h =
      let name = trim p.fields.org_name in
      let renamed_page = record p { organizations = rename_first org_id name p.organizations } in
      let sent = post_sends org_id accepts (log_entry floats (renamed name) renamed_page) c h in
      (refl, inr refl, sent.0, sent.1)

  -- A configuration that a save sends is the one that the fields hold, with an interval of its uplinks
  -- and durations that pass their tests, and it is sent only if the name of the organization is to stay
  -- or the server has taken the new one. It becomes the active configuration exactly as the server
  -- takes it: else that stays as it was.
  pub save_org_config-posted :
      (org_id : Text) (accepts_name accepts : Bool) (p : Page floats) (c : Config floats)
      → posted (save_org_config floats org_id accepts_name accepts p).1 ≡ some c
      → (c ≡ config_of floats p.active_org_config p.fields)
        × (validate_uplink_interval c.uplink_interval ≡ true)
        × DurationOk c.duration
        × ActivationOk c.activation_time
        × ((needs_rename p.organizations org_id (trim p.fields.org_name) ≡ false)
            ⊎ (accepts_name ≡ true))
        × ((save_org_config floats org_id accepts_name accepts p).0.active_org_config
            ≡ (if accepts then some c else p.active_org_config))
  unfolding save_org_config config_of
  save_org_config-posted org_id accepts_name accepts p c h = elim (Bool-cases (truthy org_id)) [
    | inr e ↦ absurd (cc (simp e at h))
    | inl e ↦
        let sent =
          checked_sends org_id accepts_name accepts p c (check_durations p.fields) _
            (simp e at h) in
        let ok = check_durations-none p.fields sent.0 in
        (
          sent.2,
          ap (λ (d : Config floats). validate_uplink_interval d.uplink_interval) sent.2 ∙ ok.0,
          rw (sent.2) (ok.1),
          rw (sent.2) (ok.2),
          sent.1,
          simp e (sent.3),
        )
  ]

  checked_refused :
      (org_id : Text) (accepts_name : Bool) (p : Page floats) (wrong : Option SaveEntry)
      (needs : Bool)
      → let q = (save_checked floats org_id accepts_name false p wrong needs).0 in
        (q.active_org_config ≡ p.active_org_config)
        × (q.fields ≡ p.fields)
        × (q.drawer_open ≡ p.drawer_open)
        × (q.loading ≡ p.loading)
        × ((q.organizations ≡ p.organizations)
            ⊎ ((accepts_name ≡ true)
                × (q.organizations ≡ rename_first org_id (trim p.fields.org_name) p.organizations)))
  unfolding save_checked post
  checked_refused org_id an p (some e) needs = (refl, refl, refl, refl, inl refl)
  checked_refused org_id an p none false = (refl, refl, refl, refl, inl refl)
  checked_refused org_id false p none true = (refl, refl, refl, refl, inl refl)
  checked_refused org_id true p none true = (refl, refl, refl, refl, inr (refl, refl))

  -- A save that the server refuses leaves the active configuration, the fields and the drawer as they
  -- were, and the loads that wait; the organizations too, but for the new name of this one, which may
  -- be stored all the same if the server takes the name.
  pub save_org_config_refused :
      (org_id : Text) (accepts_name : Bool) (p : Page floats)
      → let q = (save_org_config floats org_id accepts_name false p).0 in
        (q.active_org_config ≡ p.active_org_config)
        × (q.fields ≡ p.fields)
        × (q.drawer_open ≡ p.drawer_open)
        × (q.loading ≡ p.loading)
        × ((q.organizations ≡ p.organizations)
            ⊎ ((accepts_name ≡ true)
                × (q.organizations ≡ rename_first org_id (trim p.fields.org_name) p.organizations)))
  unfolding save_org_config
  save_org_config_refused org_id accepts_name p = elim (Bool-cases (truthy org_id)) [
    | inr e ↦ simp e (refl, refl, refl, refl, inl refl)
    | inl e ↦ simp e (checked_refused org_id accepts_name p (check_durations p.fields) _)
  ]
