-- ===== src/Lib.antt =====
-- Models and proofs for the web frontend of the ChirpStack simulator (internal/api/frontend/js).
--
-- The frontend is one page with a tab for each kind of object. All tabs read and change one
-- object, `state` (state.js), which State.antt has as a record; the fields that belong to one
-- table stand together in a `View`. A handler of the source becomes a function from the state to
-- the new state and to what the renderers put into the document (a `Screen`); an early return is
-- `none`.
--
-- Parts and files:
--   * Table: the code that every list tab repeats: total pages, slice of a page, pagination
--     bar, sort order, search, page size. Table.Defs has the definitions, Table.Order the
--     comparators that `sort` may be given, Table.Paging and Table.Bar the laws of pages,
--     Table.Rows what a table shows.
--   * Tabs.Networks, Profiles, Gateways, Orgs, Devices, DeviceStatus: tabs/networks.js,
--     devices.js, gateways.js, orgs.js, device-list.js and device-status.js, by
--     `apply…FiltersAndRender` and the handlers round it; the child Rows of each has its
--     theorems, and Tabs.Networks.Listed describes the rows of the networks apart from the code.
--     Tabs.Names: the lookups of names. Tabs.Fetching: the requests that load the lists, create
--     and delete. The devices come in pages that the server cuts: Tabs.Devices.Fetching has
--     these requests, Tabs.Devices.Pages and Stale their laws, and Tabs.Devices.Drawer the form
--     in which a device is edited; Tabs.Profiles.Drawer has that of a profile. Tabs.Details is
--     the drawer of details, with the editor of a network; Tabs.FilterSelects the selects of
--     tenants over the tables.
--   * Intervals: updateDeviceInterval of tabs/device-list.js. The loop of 30 polls is
--     recursion on the number of polls that are left, so no fuel is added; Intervals.Runs has
--     its theorems, over the lists of actions of Intervals.Traces.
--   * Wizard: wizards/bootstrap-wizard.js as a state machine. Wizard.Events has the events as
--     a step relation, Wizard.Edits and Wizard.Reach the invariant; Wizard.Pending is about a
--     click while a request runs.
--   * Forms: wizards/network-wizard.js, dp-wizard.js and dev-wizard.js, which repeat one code,
--     as one state machine over an interface; Forms.Network, Profile and Device fill it with
--     the inputs, the tests and the request of each. Forms.Events has the events, Forms.Calm
--     the invariant, Forms.Unchecked a run in which the user goes back while a request waits.
--   * Api: the request wrapper of api.js, with its entries in the log and its login screen.
--   * Session: login, logout and the loading of the data in main.js, with the timer of the
--     polls and the log stream. Session.Streams has the events and what runs, Session.Expiry
--     what goes on behind the login screen, Session.Shell the tabs and the side bar
--     (Session.Shell.Clicks their clicks).
--   * Themes: the colours of utils.js (Themes.Channels), the presets, applyGlobalTheme
--     (Themes.Page), and from tabs/console.js the choice, the editor and the toggle of themes
--     (Themes.Toggle: Kept has the local storage, Flips and Returns what the toggle does).
--   * OrgConfig: saveOrgConfig, loadOrgConfig and openOrgDrawer of tabs/orgs.js. Boxes and
--     Types have the check boxes of the anomaly types, Loading what loadOrgConfig shows,
--     Saving and RoundTrip the laws of saving and of loading, Stale the answers that come in
--     the wrong order. Durations has the tests of the durations. The server's answers are
--     arguments, and a load that waits is a state of the page.
--   * Passive: the stream of topology changes of passive-sync.js and the requests about them,
--     with the server's answers and the timers as events (Passive.Stream, Passive.Settling);
--     Passive.Locks: what the mode locks on the page (passive-mode-ui.js); Passive.Switch: the
--     switch of the mode in tabs/settings.js with its requests.
--   * Translate: the lookup of a text in translate.js, and the manual sync with its notices.
--   * Settings: the fields of tabs/settings.js that the local storage keeps.
--   * SystemLogs: the log of tabs/system-logs.js. SystemLogs.Adding has the changes of the
--     database, Queries and Order what the log view shows, Monday the weekly purge, View the
--     entries and their clicks, Export the file of an export.
--   * Console: the live log of tabs/console.js; Dashboard: poll, chart and buttons of
--     tabs/dashboard.js; Telemetry: the payload preview of tabs/dynamic-telemetry.js, with the
--     bit operators of JavaScript on 32 bits. Dashboard.Hash is the hash by which names are
--     placed on the map, Dashboard.Form the form of a start (Blanks: what `trim` leaves),
--     Dashboard.Map the hubs and devices of the map, and Dashboard.Inputs the inputs that
--     updateFormInputsState of tabs/orgs.js disables; Telemetry.Codec is the script of an
--     organization, loaded, edited and saved.
--   * Prelude: numbers, lists, texts as lists of character codes, and a stable sort.
--   * Tests: concrete data, the definitions computed on it, and the theorems applied to it.
--
-- What is not under the source tree is an argument. `Engine` has the browser's `toLowerCase`,
-- `toUpperCase`, `localeCompare` and `Date`; a theorem that needs `localeCompare` to be an order
-- says so, and a plain comparison of texts is such an order. The server's answers are arguments of
-- Intervals and Dashboard and events of Wizard; the records of the browser's database, the keys
-- that it gives and the calendar are arguments of SystemLogs; the result of a payload script is an
-- argument of Telemetry; `Floats` has the numbers of JavaScript that are no integers, and `Local`
-- the local storage. A number is printed with 21 digits at most, since JavaScript prints larger
-- ones with an exponent: those digits are the only fuel.
--
-- Not modelled: the Go server and simulator, the coordinates of the map, the details of devices,
-- profiles and organizations, the forms for a new organization or gateway, the colours of the
-- console, the health check and the live counts of the dashboard, the forms for the connections and
-- for mail, the restart that follows a topology change, the commands that inject anomalies, the
-- tables of texts, and the wiring of DOM events. The server is written in another language; of the
-- parts of the page, these only show what the server answers, or send it what was typed. Numbers
-- that the source cannot make negative are natural numbers, and where a difference stops at 0 the
-- source has a `Math.max`, or a comment says why it is the same.
pub mod Prelude
pub mod Table
pub mod State
pub mod Tabs
pub mod Telemetry
pub mod Console
pub mod SystemLogs
pub mod Dashboard
pub mod Intervals
pub mod Wizard
pub mod Forms
pub mod Passive
pub mod Durations
pub mod Api
pub mod OrgConfig
pub mod Session
pub mod Themes
pub mod Settings
pub mod Translate
pub mod Tests
