-- ===== src/Telemetry/Codec/Owner.antt =====
-- Saving while every answer comes before the next choice.
use mathlib.Core.Path.{subst}
use mathlib.Core.Option.{some-injective}
use chirpstack_simulator.Telemetry.Codec.{
  Config, Codec, Post, detect_and_select_template, load_org_telemetry_config, load_answered,
  select_org, handle_template_select_change, edit_script, save_with, save_telemetry_script,
  save_answered, keep_script, put_template, populate_telemetry_orgs_select,
}
use chirpstack_simulator.Prelude.{
  Text, Option, ◌≡◌, some, truthy, Bool, true, trim, none, [], codes, Bool-cases, ◌++◌, inl, inr,
  false, ap, refl, List,
}

module _ {Rest : Type 0} (templates : Text → Option Text) where
  -- The runs in which the answer to a choice, good or bad, and the answer to a save come before anything
  -- else happens. The first text is the organization that is chosen, empty where none is; the second the
  -- one that was loaded last, empty where none was. The server gives, where it gives one, the
  -- configuration of the tenant that was asked for.
  pub data Reached : Text → Text → Codec Rest → Type 0 where
    starts : (c : Codec Rest) → c.active_org_config ≡ none → Reached c.selected [] c
    loads :
        {chosen owner : Text} {c : Codec Rest} (id : Text) (config : Config Rest)
        → truthy id ≡ true
        → config.tenant_id ≡ id
        → Reached chosen owner c
        → Reached id id (load_answered Rest (some config) (select_org Rest id c).0)
    fails :
        {chosen owner : Text} {c : Codec Rest} (id : Text)
        → truthy id ≡ true
        → Reached chosen owner c
        → Reached id owner (load_answered Rest none (select_org Rest id c).0)
    clears :
        {chosen owner : Text} {c : Codec Rest}
        → Reached chosen owner c
        → Reached [] [] (select_org Rest [] c).0
    fills :
        {chosen owner : Text} {c : Codec Rest} (ids : List Text)
        → Reached chosen owner c
        → Reached [] owner (populate_telemetry_orgs_select Rest ids c)
    edits :
        {chosen owner : Text} {c : Codec Rest} (script : Text)
        → Reached chosen owner c
        → Reached chosen owner (edit_script Rest script c)
    chooses :
        {chosen owner : Text} {c : Codec Rest} (template : Text)
        → Reached chosen owner c
        → Reached chosen owner (handle_template_select_change Rest templates template c)
    saves :
        {chosen owner : Text} {c d : Codec Rest} (ok : Bool)
        → save_answered Rest ok (trim c.script) (save_telemetry_script Rest c).0 ≡ some d
        → Reached chosen owner c
        → Reached chosen owner d

  abbrev Owns : Text → Option (Config Rest) → Type 0
  Owns owner none = Unit
  Owns owner (some config) = config.tenant_id ≡ owner

  -- The select shows the chosen organization, and the configuration is the owner's.
  OwnsIn : Text → Text → Codec Rest → Type 0
  OwnsIn chosen owner c = (c.selected ≡ chosen) × Owns owner c.active_org_config

  loads-owner :
      (c : Codec Rest) (id : Text) (config : Config Rest)
      → truthy id ≡ true
      → config.tenant_id ≡ id
      → OwnsIn id id (load_answered Rest (some config) (select_org Rest id c).0)
  unfolding load_answered detect_and_select_template select_org load_org_telemetry_config OwnsIn
  loads-owner c id config t e = rw t (refl, e)

  fails-owner :
      (c : Codec Rest) (id owner : Text)
      → truthy id ≡ true
      → Owns owner c.active_org_config
      → OwnsIn id owner (load_answered Rest none (select_org Rest id c).0)
  unfolding load_answered select_org load_org_telemetry_config OwnsIn
  fails-owner c id owner t h = rw t (refl, h)

  clears-owner : (c : Codec Rest) → OwnsIn [] [] (select_org Rest [] c).0
  unfolding select_org load_org_telemetry_config OwnsIn
  clears-owner c = (refl, tt)

  chooses-owner :
      (chosen owner : Text) (o : Option Text) (c : Codec Rest)
      → OwnsIn chosen owner c
      → OwnsIn chosen owner (put_template Rest o c)
  unfolding put_template OwnsIn
  chooses-owner chosen owner none c h = h
  chooses-owner chosen owner (some script) c h = elim (Bool-cases (truthy script)) [
    | inl e ↦ rw e h
    | inr e ↦ rw e h
  ]

  kept-owner :
      (chosen owner : Text) (o : Option (Config Rest)) (script : Text) (c d : Codec Rest)
      → (c.selected ≡ chosen) × Owns owner o
      → keep_script Rest o script c ≡ some d
      → OwnsIn chosen owner d
  unfolding keep_script OwnsIn
  kept-owner chosen owner none script c d h k = absurd (cc k)
  kept-owner chosen owner (some config) script c d h k =
      subst (OwnsIn chosen owner) (some-injective _ _ k) h

  answered-owner :
      (chosen owner : Text) (ok : Bool) (script : Text) (c d : Codec Rest)
      → OwnsIn chosen owner c
      → save_answered Rest ok script c ≡ some d
      → OwnsIn chosen owner d
  unfolding save_answered OwnsIn
  answered-owner chosen owner true script c d h k =
      kept-owner chosen owner c.active_org_config script (record c { can_save = true }) d h k
  answered-owner chosen owner false script c d h k =
      subst (OwnsIn chosen owner) (some-injective _ _ k) h

  saves-owner :
      (chosen owner : Text) (o : Option (Config Rest)) (c : Codec Rest)
      → OwnsIn chosen owner c
      → OwnsIn chosen owner (save_with Rest o c).0
  unfolding save_with OwnsIn
  saves-owner chosen owner none c h = h
  saves-owner chosen owner (some config) c h = h

  Reached-owner :
      {chosen owner : Text} {c : Codec Rest} → Reached chosen owner c → OwnsIn chosen owner c
  unfolding OwnsIn populate_telemetry_orgs_select edit_script handle_template_select_change
      save_telemetry_script
  Reached-owner (starts c e) = (refl, rw e tt)
  Reached-owner (loads {c} id config t e r) = loads-owner c id config t e
  Reached-owner (fails {owner} {c} id t r) = fails-owner c id owner t (Reached-owner r).1
  Reached-owner (clears {c} r) = clears-owner c
  Reached-owner (fills ids r) = (refl, (Reached-owner r).1)
  Reached-owner (edits script r) = Reached-owner r
  Reached-owner (chooses {chosen} {owner} {c} template r) =
      chooses-owner chosen owner (templates template) (record c { template = template })
        (Reached-owner r)
  Reached-owner (saves {chosen} {owner} {c} {d} ok k r) =
      answered-owner chosen owner ok (trim c.script) _ d
        (saves-owner chosen owner c.active_org_config c (Reached-owner r)) k

  posted :
      (chosen owner : Text) (o : Option (Config Rest)) (c : Codec Rest) (post : Post Rest)
      → (c.selected ≡ chosen) × Owns owner o
      → (save_with Rest o c).1 ≡ some post
      → (post.path ≡ codes "/api/org-configs/" ++ chosen)
        × (post.body.tenant_id ≡ owner)
        × (post.body.payload_script ≡ trim c.script)
  unfolding save_with
  posted chosen owner none c post h k = absurd (cc k)
  posted chosen owner (some config) c post h k =
      subst
        (λ (post : Post Rest).
          (post.path ≡ codes "/api/org-configs/" ++ chosen)
          × (post.body.tenant_id ≡ owner)
          × (post.body.payload_script ≡ trim c.script))
        (some-injective _ _ k) (ap (λ (id : Text). codes "/api/org-configs/" ++ id) h.0, h.1, refl)

  -- If every answer comes before the next choice, and a configuration that the server gives is that of
  -- the tenant that was asked for, then whatever is chosen, loaded or not, edited and saved, and however
  -- often the select is filled again: the script is sent, trimmed, to the organization that is chosen,
  -- with the configuration of the one that was loaded last, which is another one after a choice that
  -- could not be loaded.
  pub save_telemetry_script-owner :
      {chosen owner : Text} {c : Codec Rest} {post : Post Rest}
      → Reached chosen owner c
      → (save_telemetry_script Rest c).1 ≡ some post
      → (post.path ≡ codes "/api/org-configs/" ++ chosen)
        × (post.body.tenant_id ≡ owner)
        × (post.body.payload_script ≡ trim c.script)
  unfolding save_telemetry_script
  save_telemetry_script-owner {chosen} {owner} {c} {post} r k =
      posted chosen owner c.active_org_config c post (unfold OwnsIn in Reached-owner r) k
