-- ===== src/Forms/Device.antt =====
-- internal/api/frontend/js/wizards/dev-wizard.js
use chirpstack_simulator.Prelude.{
  [], ◌∷◌, Option, Text, ℕ, Bool, ◌≡◌, [], trim, length, if◌then◌else◌, arith, false, truthy, ◌≤◌,
  true, ◌<◌, some, ◌==◌, ◌&&◌, ◌||◌, none, refl,
}
use chirpstack_simulator.Forms.{FormWizard, Bool, ℕ, Option, true, false, some, not, none}
use chirpstack_simulator.Forms.Events.{Panes}
use Prim.Native.String.{[], ◌∷◌}

pub record DevInputs : Type 0 where
  pub tenant : Text
  pub app : Text
  pub eui : Text
  pub name : Text
  pub profile : Text
  pub desc : Text

pub record DevRequest : Type 0 where
  pub dev_eui : Text
  pub name : Text
  pub application_id : Text
  pub device_profile_id : Text
  pub description : Text

unfoldable pub dev_valid : ℕ → DevInputs → Bool
dev_valid step i =
    if step == 1
    then truthy i.tenant && truthy i.app
    else if step == 2
    then length (trim i.eui) == 16 && truthy (trim i.name) && truthy i.profile
    else true

unfoldable pub dev_data : DevInputs → DevRequest
dev_data i = record {
  dev_eui = trim i.eui;
  name = trim i.name;
  application_id = i.app;
  device_profile_id = i.profile;
  description = trim i.desc;
}

unfoldable pub dev_request : DevInputs → Option DevRequest
unfolding dev_data
dev_request i =
    if not (truthy (trim i.eui))
      || not (truthy (trim i.name))
      || not (truthy i.app)
      || not (truthy i.profile)
    then none
    else some (dev_data i)

-- onDevWizTenantChange empties both selects.
unfoldable pub change_tenant : Text → DevInputs → DevInputs
change_tenant t i = record i { tenant = t; app = []; profile = [] }

abbrev pub dev_wizard : FormWizard
dev_wizard = record {
  Inputs = DevInputs;
  Request = DevRequest;
  cleared = record { tenant = []; app = []; eui = []; name = []; profile = []; desc = [] };
  pane_valid = dev_valid;
  request_of = dev_request;
}

-- The inputs of the panes. A change of the tenant runs the check only for a tenant: with none, the
-- listener returns before it. The selects of networks and of profiles have options besides the empty
-- one only where a tenant is selected.
pub data DevEdits (step : ℕ) (i : DevInputs) : DevInputs → Bool → Type 0 where
  tenant : (t : Text) → step ≡ 1 → DevEdits step i (change_tenant t i) (truthy t)
  app :
      (a : Text)
      → step ≡ 1
      → (not (truthy a) || truthy i.tenant) ≡ true
      → DevEdits step i (record i { app = a }) true
  eui : (e : Text) → step ≡ 2 → DevEdits step i (record i { eui = e }) true
  name : (n : Text) → step ≡ 2 → DevEdits step i (record i { name = n }) true
  profile :
      (p : Text)
      → step ≡ 2
      → (not (truthy p) || truthy i.tenant) ≡ true
      → DevEdits step i (record i { profile = p }) true
  desc : (d : Text) → step ≡ 2 → DevEdits step i (record i { desc = d }) false

-- What holds of a pane when Next is enabled on it: on the first pane there is a tenant with a network,
-- or neither a tenant nor a profile.
unfoldable pub dev_ok : ℕ → DevInputs → Bool
dev_ok k i =
    if k == 1
    then (truthy i.tenant && truthy i.app) || (not (truthy i.tenant) && not (truthy i.profile))
    else dev_valid k i

pub dev_valid_ok : (k : ℕ) (i : DevInputs) → dev_valid k i ≡ true → dev_ok k i ≡ true
unfolding dev_valid dev_ok
dev_valid_ok k i h = ground arith

pub dev_before :
    (k j : ℕ) (old new : DevInputs) (checks : Bool)
    → DevEdits k old new checks
    → 1 ≤ j
    → j < k
    → dev_ok j old ≡ true
    → dev_ok j new ≡ true
unfolding dev_ok
dev_before k j old new checks (tenant t e) lo hi v = absurd (omega arith)
dev_before k j old new checks (app a e h) lo hi v = absurd (omega arith)
dev_before k j old new checks (eui x e) lo hi v =
    let first : j ≡ 1 = omega arith in rw first (rw first at v)
dev_before k j old new checks (name n e) lo hi v =
    let first : j ≡ 1 = omega arith in rw first (rw first at v)
dev_before k j old new checks (profile p e h) lo hi v =
    let first : j ≡ 1 = omega arith in let before = rw first at v in rw first (ground arith)
dev_before k j old new checks (desc d e) lo hi v =
    let first : j ≡ 1 = omega arith in rw first (rw first at v)

pub dev_unchecked :
    (k : ℕ) (old new : DevInputs) (b : Bool)
    → DevEdits k old new b
    → b ≡ false
    → dev_ok k old ≡ true
    → dev_ok k new ≡ true
unfolding dev_ok dev_valid change_tenant
dev_unchecked k old new b (tenant t e) f v = rw e (ground arith)
dev_unchecked k old new b (app a e h) f v = cc
dev_unchecked k old new b (eui x e) f v = cc
dev_unchecked k old new b (name n e) f v = cc
dev_unchecked k old new b (profile p e h) f v = cc
dev_unchecked k old new b (desc d e) f v = v

pub dev_shut : (old new : DevInputs) (checks : Bool) → DevEdits 3 old new checks → ⊥
dev_shut old new checks (tenant t e) = omega arith
dev_shut old new checks (app a e h) = omega arith
dev_shut old new checks (eui x e) = omega arith
dev_shut old new checks (name n e) = omega arith
dev_shut old new checks (profile p e h) = omega arith
dev_shut old new checks (desc d e) = omega arith

abbrev pub DevRequestOk : DevRequest → Type 0
DevRequestOk r =
    (length r.dev_eui ≡ 16)
    × (truthy r.name ≡ true)
    × (truthy r.application_id ≡ true)
    × (truthy r.device_profile_id ≡ true)

truthy-length : (a : Text) → length a ≡ 16 → truthy a ≡ true
truthy-length [] h = absurd (omega arith)
truthy-length (x ∷ xs) h = refl

pub dev_complete :
    (i : DevInputs)
    → dev_ok 1 i ≡ true
    → dev_ok 2 i ≡ true
    → (request : DevRequest) × (dev_request i ≡ some request) × DevRequestOk request
unfolding dev_ok dev_valid dev_request dev_data
dev_complete i h k =
    let long : length (trim i.eui) ≡ 16 = ground arith in
    let name : truthy (trim i.name) ≡ true = ground arith in
    let profile : truthy i.profile ≡ true = ground arith in
    let app : truthy i.app ≡ true = ground arith in
    let eui = truthy-length (trim i.eui) long in
    (dev_data i, simp (eui, name, app, profile) refl, (long, name, app, profile))

abbrev pub dev_panes : Panes dev_wizard
dev_panes = record {
  Edits = DevEdits;
  PaneOk = λ k i. dev_ok k i ≡ true;
  RequestOk = DevRequestOk;
  valid = dev_valid_ok;
  before = dev_before;
  unchecked = λ k old new e. dev_unchecked k old new false e refl;
  summary_shut = dev_shut;
  complete = dev_complete;
}
