-- ===== src/Telemetry/Codec/Misplaced.antt =====
-- Saving after a load that failed, and after the tab has been opened again.
use chirpstack_simulator.Telemetry.Codec.{
  Config, Codec, load_org_telemetry_config, load_answered, select_org, save_with,
  save_telemetry_script, populate_telemetry_orgs_select, trim, Text,
}
use chirpstack_simulator.Prelude.{
  Text, trim, truthy, List, ◌≡◌, true, some, none, codes, ◌++◌, ap, Option, ◌∙◌, [], ◌∷◌, refl,
}

module _ {Rest : Type 0} where
  -- The body of the request: the configuration that was loaded last, with the script of the editor.
  abbrev pub body_of : Config Rest → Codec Rest → Config Rest
  body_of config c = record config { payload_script = trim c.script }

  failed-kept :
      (other : Text) (c : Codec Rest)
      → truthy other ≡ true
      → load_answered Rest none (select_org Rest other c).0 ≡ record c { selected = other }
  unfolding load_answered select_org load_org_telemetry_config
  failed-kept other c t = rw t refl

  saved :
      (id : Text) (config : Config Rest) (c : Codec Rest)
      → c.active_org_config ≡ some config
      → (save_telemetry_script Rest (record c { selected = id })).1
        ≡ some (record { path = codes "/api/org-configs/" ++ id; body = body_of config c })
  unfolding save_telemetry_script save_with
  saved id config c e =
      ap (λ (o : Option (Config Rest)). (save_with Rest o (record c { selected = id })).1) e

  -- With a configuration loaded: if another organization is chosen and its load fails, a save sends the
  -- first organization's configuration, its tenant included, to the second; and if the list is filled
  -- again, as it is whenever the tab is opened, a save sends it to the path without an id. In both
  -- cases the Save button is left as it was.
  pub save_telemetry_script_misplaced :
      (c : Codec Rest) (config : Config Rest) (other : Text) (ids : List Text)
      → c.active_org_config ≡ some config
      → truthy other ≡ true
      → let failed = load_answered Rest none (select_org Rest other c).0 in
        let again = populate_telemetry_orgs_select Rest ids c in
        ((save_telemetry_script Rest failed).1
          ≡ some (record { path = codes "/api/org-configs/" ++ other; body = body_of config c }))
        × ((save_telemetry_script Rest again).1
            ≡ some (record { path = codes "/api/org-configs/"; body = body_of config c }))
        × (failed.can_save ≡ c.can_save)
        × (again.can_save ≡ c.can_save)
  unfolding populate_telemetry_orgs_select
  save_telemetry_script_misplaced c config other ids e t =
      let kept = failed-kept other c t in
      (
        ap (λ (d : Codec Rest). (save_telemetry_script Rest d).1) kept ∙ saved other config c e,
        saved [] config (record c { options = [] ∷ ids }) e,
        ap (λ (d : Codec Rest). d.can_save) kept,
        refl,
      )
