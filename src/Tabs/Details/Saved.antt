-- ===== src/Tabs/Details/Saved.antt =====
-- A network that is edited in the drawer and saved.
use mathlib.Core.Path.{subst}
use chirpstack_simulator.State.{Engine, State, Application}
use chirpstack_simulator.Tabs.Names.{find_net}
use chirpstack_simulator.Tabs.Networks.{apply_app_filters_and_render}
use chirpstack_simulator.Tabs.Details.{
  NetPage, Put, update_net, save_application, save_answered, close_details_drawer,
}
use chirpstack_simulator.Prelude.{
  Text, List, ◌≡◌, Option, some, find_by, ◌∷◌, text_eq, Bool-cases, inl, ap, length, false, refl,
  trim, arith, true, truthy, [], sym, text_eq_iff, inr, if◌then◌else◌, ◌∙◌,
}

abbrev by_id : Text → List Application → Option Application
by_id id apps = find_by (λ (app : Application). text_eq app.id id) apps

find-update_net :
    (id name desc : Text) (apps : List Application) (app : Application)
    → by_id id apps ≡ some app
    → by_id id (update_net id name desc apps)
      ≡ some (record app { name = name; description = desc })
unfolding update_net
find-update_net id name desc [] app e = absurd (cc e)
find-update_net id name desc (a ∷ apps) app e =
    ground (arith, find-update_net id name desc apps app)

find-update_net_other :
    (id other name desc : Text) (apps : List Application)
    → text_eq id other ≡ false
    → by_id other (update_net id name desc apps) ≡ by_id other apps
unfolding update_net
find-update_net_other id other name desc [] e = refl
find-update_net_other id other name desc (a ∷ apps) e = elim (Bool-cases (text_eq a.id id)) [
  | inl k ↦
      let not_other : text_eq a.id other ≡ false =
        subst (λ x. text_eq x other ≡ false) (sym ((text_eq_iff a.id id).0 k)) e in
      rw (k, not_other) refl
  | inr k ↦ rw k (
      ap (λ (o : Option Application). if text_eq a.id other then some a else o)
        (find-update_net_other id other name desc apps e))
]

length-update_net :
    (id name desc : Text) (apps : List Application)
    → length (update_net id name desc apps) ≡ length apps
unfolding update_net
length-update_net id name desc [] = refl
length-update_net id name desc (a ∷ apps) = ground (arith, length-update_net id name desc apps)

rendered-applications :
    (js : Engine) (s : State) → (apply_app_filters_and_render js s).0.applications ≡ s.applications
unfolding apply_app_filters_and_render
rendered-applications js s = refl

-- The request carries the trimmed texts of the two inputs, a name that is not empty among them.
sent :
    (net : Application) (p : NetPage) {put : Put}
    → (save_application net p).1 ≡ some put
    → (put.name ≡ trim p.name_input)
      × (put.description ≡ trim p.desc_input)
      × (truthy (trim p.name_input) ≡ true)
      × ((save_application net p).0.state ≡ p.state)
unfolding save_application
sent net p e = ground (arith, e)

-- Where a network is edited and saved: the request has the trimmed name, which is not empty, and the
-- trimmed description. An accepted answer gives exactly the network with this id these two, leaves the
-- number of networks and what every other id refers to as they were, and closes the drawer; a refused
-- answer leaves the networks and the drawer as they were.
pub save_application-saved :
    (js : Engine) (net found : Application) (p : NetPage) (put : Put) (other : Text)
    → (save_application net p).1 ≡ some put
    → find_net p.state net.id ≡ some found
    → text_eq net.id other ≡ false
    → let waiting = (save_application net p).0 in
      let after = (save_answered js true net put waiting).0 in
      let refused = (save_answered js false net put waiting).0 in
      (truthy put.name ≡ true)
      × (find_net after.state net.id
          ≡ some (record found { name = trim p.name_input; description = trim p.desc_input }))
      × (find_net after.state other ≡ find_net p.state other)
      × (length after.state.applications ≡ length p.state.applications)
      × (after.drawer.is_open ≡ false)
      × (refused.state ≡ p.state)
      × (refused.drawer ≡ waiting.drawer)
unfolding save_answered close_details_drawer find_net apply_app_filters_and_render
save_application-saved js net found p put other e f d =
    let (en, ed, named, kept) = sent net p e in
    let name = trim p.name_input in
    let desc = trim p.desc_input in
    let apps = p.state.applications in
    let updated : update_net net.id put.name put.description
          (save_application net p).0.state.applications
        ≡ update_net net.id name desc apps =
      λ i. update_net net.id (en i) (ed i) (kept i).applications in
    (
      ap truthy en ∙ named,
      ap (by_id net.id) updated ∙ find-update_net net.id name desc apps found f,
      ap (by_id other) updated ∙ find-update_net_other net.id other name desc apps d,
      ap length updated ∙ length-update_net net.id name desc apps,
      refl,
      kept,
      refl,
    )
