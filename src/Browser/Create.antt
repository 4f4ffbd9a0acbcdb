-- ===== src/Browser/Create.antt =====
-- js/packages/browser/src/browser.ts: `pickStorage`, `setupAutoTracking` and
-- `createBrowserIforevents`.
use iforevents_sdks.Prelude.{String, Bool, true, false, Option, none, some, List, []}
use iforevents_sdks.Js.Value.{Value, string, Properties, empty, entry, assign}
use iforevents_sdks.Exec.{
  Outcome, ok, thrown, out_of_fuel, void_outcome, Exec, ◌>>=◌, ◌>>◌, pure, gets, modify, background,
}
use iforevents_sdks.Storage.{Backend}
use iforevents_sdks.Types.{IntegrationResult}
use iforevents_sdks.Api.{Config}
use iforevents_sdks.Api.Construct.{RawConfig, construct, default}
use iforevents_sdks.Facade.{Member, Facade, Clock, new_facade}
use iforevents_sdks.Facade
use iforevents_sdks.Node.{with_api}
use iforevents_sdks.Browser.{Window, Browser, absent, path_of, page}
use iforevents_sdks.Browser.Context.{Navigator, browser_context}

-- The store that the api integration is given.
pub data Chosen : Type 0 where
  passed web memory : Chosen

-- `pickStorage`, given the storage of the page, if there is one.
unfoldable pub pick_storage : {B : Type 0} → Option (Backend B) → B → Chosen × B
pick_storage none b = (memory, b)
pick_storage (some backend) b = elim (backend.set_item "__iforevents_probe__" "1" b) [
  | none ↦ (memory, b)
  | some probed ↦ elim (backend.remove_item "__iforevents_probe__" probed) [
    | none ↦ (memory, probed)
    | some cleared ↦ (web, cleared)
  ]
]

pub record BrowserOptions (S : Type 0) : Type 0 where
  pub integrations : List (Member S)
  pub auto_track : Bool
  pub app_version : String
  pub context : Properties
  pub disable_api : Bool
  pub has_storage : Bool
  pub config : RawConfig

-- The client with its promises, before anything is tracked.
abbrev pub client_of :
    {S : Type 0}
    → Outcome (List IntegrationResult)
    → Facade S
    → Option (Exec S (Unit {0}))
    → Option Window
    → Browser S
client_of results facade api window = record {
  iforevents = facade;
  api = api;
  ready = void_outcome results;
  identifying = ok tt;
  last_path = path_of window;
  window = window;
}

module _ {S : Type 0} (clock : Clock) (text : Value → String) where
  -- `fire` of `setupAutoTracking`
  unfoldable pub fire : String → Exec (Browser S) (Unit {0})
  unfolding page
  fire navigation_type = do
    previous_route ← gets λ b. b.last_path
    to_route ← gets λ b. path_of b.window
    modify λ b. record b { last_path = to_route }
    background (
        page clock text absent (some empty) (record {
          navigation_type = some navigation_type;
          to_route = some to_route;
          previous_route = some previous_route;
        }))

  -- A change of the history, `pushState`, `replaceState` or `popstate`, that leads to a window.
  unfoldable pub navigate : String → Window → Exec (Browser S) (Unit {0})
  unfolding fire
  navigate method w = do modify λ b. record b { window = some w }; fire method

  -- The listeners are set up where there is a window.
  abbrev pub auto_tracking : Bool → Option Window → Exec (Browser S) (Unit {0})
  auto_tracking true (some w) = fire "load"
  auto_tracking wanted window = pure tt

  -- `new_api` is the api integration of a configuration and a store, and `keepalive` its flush.
  module _ (navigator : Option Navigator) (new_api : Chosen → Config → Member S)
      (keepalive : Exec S (Unit {0})) where
    abbrev pub browser_facade : BrowserOptions S → Option (Member S) → Facade S
    browser_facade options api = new_facade (with_api api options.integrations) (λ n. some (
        some (
          browser_context navigator (
            assign (entry "device_app_version" (string options.app_version) empty)
              options.context))))

    -- The client over the facade, once `init` has been called.
    unfoldable pub start : BrowserOptions S → Option Window → Option (Member S) → Browser S
    unfolding fire
    start options window api =
        let (results, facade) = Facade.init clock [] none (browser_facade options api) in
        (auto_tracking options.auto_track window
          (client_of results facade (elim api [ none ↦ none | some m ↦ some keepalive ]) window)).1

    -- `{ persistQueue: true, ...apiConfig, projectKey }`
    abbrev pub browser_config : String → RawConfig → RawConfig
    browser_config project_key raw = record raw {
      project_key = string project_key;
      persist_queue = some (default raw.persist_queue true);
    }

    abbrev pub start_with :
        BrowserOptions S → Option Window → Chosen → Outcome Config → Outcome (Browser S)
    start_with options window chosen (ok config) =
        ok (start options window (some (new_api chosen config)))
    start_with options window chosen (thrown e) = thrown e
    start_with options window chosen out_of_fuel = out_of_fuel

    -- `apiConfig.storage ?? pickStorage()`
    abbrev pub choose : {B : Type 0} → Bool → Option (Backend B) → B → Chosen × B
    choose true local_storage b = (passed, b)
    choose false local_storage b = pick_storage local_storage b

    -- `createBrowserIforevents`, over the storage of the page.
    unfoldable pub create_browser_iforevents :
        {B : Type 0}
        → String
        → BrowserOptions S
        → Option Window
        → Option (Backend B)
        → Exec B (Browser S)
    unfolding start pick_storage
    create_browser_iforevents project_key options window local_storage b =
        let (chosen, b') = choose options.has_storage local_storage b in
        (
          elim options.disable_api [
            | true ↦ ok (start options window none)
            | false ↦
                start_with options window chosen
                  (construct (browser_config project_key options.config))
          ],
          b',
        )
