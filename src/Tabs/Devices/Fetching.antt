-- ===== src/Tabs/Devices/Fetching.antt =====
-- internal/api/frontend/js/tabs/device-list.js: fetchDevices, and the handlers that end with it. The
-- server is an argument: what it answers to a request for one page of devices, and to the one for all of
-- them, where `none` is an answer that is not ok or has no devices.
use chirpstack_simulator.Prelude.{
  ℕ, zero, suc, ◌-◌, ◌*◌, Bool, ◌&&◌, Option, none, some, List, [], Text, text_eq, find_by,
  if◌then◌else◌,
}
use chirpstack_simulator.Table.Defs.{Screen, set_search, set_page_size, with_page}
use chirpstack_simulator.State.{Engine, State, Device}
use chirpstack_simulator.Tabs.Devices.{DevRow, DevIntRow, apply_dev_filters_and_render}
use chirpstack_simulator.Tabs.Orgs.{OrgRow, apply_filters_and_render}

pub record DevQuery : Type 0 where
  pub limit : ℕ
  pub offset : ℕ
  pub search : Text
  pub tenant_id : Text

pub record DevServer : Type 0 where
  pub list_page : DevQuery → Option (List Device × ℕ)
  pub list_all : Text → Option (List Device)

-- `a || b` on numbers that are not negative.
abbrev pub or_number : ℕ → ℕ → ℕ
or_number zero b = b
or_number (suc a) b = suc a

unfoldable pub dev_query : Text → State → DevQuery
dev_query tenant_id s =
    let limit = or_number s.dev_view.page_size 5 in
    record {
      limit = limit;
      offset = (or_number s.dev_view.page 1 - 1) * limit;
      search = s.dev_view.search_query;
      tenant_id = tenant_id;
    }

unfoldable pub page_received : Option (List Device × ℕ) → State → State
page_received none s = record s { dev_list = []; dev_total_count = 0 }
page_received (some (devices, count)) s = record s { dev_list = devices; dev_total_count = count }

unfoldable pub all_received : Option (List Device) → State → State
all_received none s = record s { all_devices = [] }
all_received (some devices) s = record s { all_devices = devices }

-- What a fetch leads to: the state, and the tables of devices, intervals and organizations.
pub record Listed : Type 0 where
  pub state : State
  pub devices : Screen DevRow
  pub intervals : Screen DevIntRow
  pub organizations : Screen OrgRow

module _ (js : Engine) where
  unfoldable pub rendered : State → Listed
  rendered s =
      let (drawn, devices, intervals) = apply_dev_filters_and_render js s in
      let (last, organizations) = apply_filters_and_render js drawn in
      record {
        state = last;
        devices = devices;
        intervals = intervals;
        organizations = organizations;
      }

  unfoldable pub fetch_devices : DevServer → Text → State → Listed
  fetch_devices server tenant_id s =
      let listed = page_received (server.list_page (dev_query tenant_id s)) s in
      rendered (all_received (server.list_all tenant_id) listed)

  unfoldable pub go_to_dev_page : DevServer → ℕ → State → Option Listed
  go_to_dev_page server n s = elim (with_page s.dev_total_count n s.dev_view) [
    | none ↦ none
    | some v ↦ some (fetch_devices server s.dev_view.tenant_filter (record s { dev_view = v }))
  ]

  unfoldable pub search_dev : DevServer → Text → State → Listed
  search_dev server q s =
      fetch_devices server s.dev_view.tenant_filter
        (record s { dev_view = set_search q s.dev_view })

  unfoldable pub change_dev_page_size : DevServer → Text → State → Listed
  change_dev_page_size server n s =
      fetch_devices server s.dev_view.tenant_filter
        (record s { dev_view = set_page_size 5 n s.dev_view })

  -- deleteDevice, where `server` is the server after the request, and `accepts` its answer. `none` is a
  -- return with nothing drawn.
  unfoldable pub delete_device : DevServer → Bool → Bool → Text → State → Option Listed
  delete_device server confirmed accepts dev_eui s =
      elim (find_by (λ (d : Device). text_eq d.dev_eui dev_eui) s.dev_list) [
        | none ↦ none
        | some dev ↦
            if confirmed && accepts
            then some (fetch_devices server s.dev_view.tenant_filter s)
            else none
      ]

  unfoldable pub create_device : DevServer → Bool → State → Option Listed
  create_device server accepts s =
      if accepts then some (fetch_devices server s.dev_view.tenant_filter s) else none
