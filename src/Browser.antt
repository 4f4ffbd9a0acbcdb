-- ===== src/Browser.antt =====
-- js/packages/browser/src/browser.ts: the facade of a page. The window is what the code reads of
-- `window` and `document`, `none` where there is none. A call is run to its end before the next.
pub mod Agent
pub mod Context
pub mod Create
pub mod Routes
pub mod Beacon
pub mod Static
pub mod Turns
use iforevents_sdks.Prelude.{ℕ, String, Bool, true, false, Option, none, some, List, [], ◌∷◌}
use iforevents_sdks.Js.Value.{Value, undefined, null, string, Properties, empty, entry, get, assign}
use iforevents_sdks.Exec.{
  Outcome, ok, thrown, out_of_fuel, Exec, ◌>>=◌, ◌>>◌, pure, gets, modify, unit_outcome, background,
}
use iforevents_sdks.Storage.{Backend}
use iforevents_sdks.Types.{IntegrationResult}
use iforevents_sdks.Api.{Config}
use iforevents_sdks.Api.Construct.{RawConfig, construct, default}
use iforevents_sdks.Integration.{Integration}
use iforevents_sdks.Facade.{Member, Facade, Clock, PageOptions, new_facade}
use iforevents_sdks.Facade
use iforevents_sdks.Node.{with_api}
use iforevents_sdks.Browser.Context.{Navigator, browser_context}

pub record Window : Type 0 where
  pub href : String
  pub pathname : String
  pub referrer : String
  pub title : String
  pub hidden : Bool

-- `pageProperties`
unfoldable pub page_properties : Option Window → Properties → Properties
page_properties none overrides = assign empty overrides
page_properties (some w) overrides =
    assign
      (entry "url" (string w.href)
        (entry "referrer" (string w.referrer) (entry "title" (string w.title) empty)))
      overrides

-- The first argument of `page`.
pub data PageArgument : Type 0 where
  absent : PageArgument
  named : String → PageArgument
  described : Properties → PageArgument

abbrev pub argument_name : PageArgument → String
argument_name (named name) = name
argument_name a = "page_view"

abbrev pub argument_properties : PageArgument → Option Properties → Properties
argument_properties (named name) properties = default properties empty
argument_properties (described p) properties = p
argument_properties absent properties = empty

-- `String(value ?? path)`, given what `String` makes of a value.
abbrev pub route_text : (Value → String) → Option Value → String → String
route_text text none path = path
route_text text (some undefined) path = path
route_text text (some null) path = path
route_text text (some (string s)) path = s
route_text text (some v) path = text v

abbrev pub path_of : Option Window → String
path_of none = ""
path_of (some w) = w.pathname

-- `{ toRoute: ..., ...pageOptions }`
abbrev pub with_route : String → PageOptions → PageOptions
with_route route options = record options { to_route = some (default options.to_route route) }

abbrev pub no_options : PageOptions
no_options = record { navigation_type = none; to_route = none; previous_route = none }

-- What `createBrowserIforevents` closes over: the facade, the flush with `keepalive` of the api
-- integration, which is the first of the facade's, what the promises `ready` and `identifying` come
-- to, the path that `autoTrack` has seen last, and the window.
pub record Browser (S : Type 0) : Type 0 where
  pub iforevents : Facade S
  pub api : Option (Exec S (Unit {0}))
  pub ready : Outcome (Unit {0})
  pub identifying : Outcome (Unit {0})
  pub last_path : String
  pub window : Option Window

-- `await` of a promise.
abbrev pub awaiting : {S : Type 0} → Outcome (Unit {0}) → Exec S (Unit {0})
awaiting o s = (o, s)

-- A call of an integration by itself, over its state in the facade.
abbrev pub on_first :
    {S : Type 0} → Exec S (Unit {0}) → List (Member S) → Outcome (Unit {0}) × List (Member S)
on_first call [] = (ok tt, [])
on_first call (m ∷ ms) =
    let (outcome, state) = call m.state in (outcome, record m { state = state } ∷ ms)

module _ {S : Type 0} where
  abbrev pub on_facade : {A : Type 0} → Exec (Facade S) A → Exec (Browser S) A
  on_facade call b = ((call b.iforevents).0, record b { iforevents = (call b.iforevents).1 })

  -- `await ready`
  abbrev pub await_ready : Exec (Browser S) (Unit {0})
  await_ready b = awaiting b.ready b

  -- `await identifying`
  abbrev pub await_identifying : Exec (Browser S) (Unit {0})
  await_identifying b = awaiting b.identifying b

  -- `api?.flush({ keepalive: true })`
  unfoldable pub beacon_flush : Exec (Browser S) (Unit {0})
  beacon_flush b = elim b.api [
    | none ↦ (ok tt, b)
    | some flush ↦
        let (outcome, members) = on_first flush b.iforevents.integrations in
        (outcome, record b { iforevents = record b.iforevents { integrations = members } })
  ]

  -- `beacon`
  unfoldable pub beacon : Exec (Browser S) (Unit {0})
  unfolding beacon_flush
  beacon = background beacon_flush

  -- The listener of `visibilitychange`.
  unfoldable pub visibility_change : Exec (Browser S) (Unit {0})
  unfolding beacon
  visibility_change b = elim b.window [
    | none ↦ (ok tt, b)
    | some w ↦ elim w.hidden [ true ↦ beacon b | false ↦ (ok tt, b) ]
  ]

  module _ (clock : Clock) where
    -- `client.track`
    unfoldable pub track : String → Option Properties → Exec (Browser S) (List IntegrationResult)
    track name properties = do
      await_ready
      await_identifying
      on_facade (Facade.track clock name (default properties empty))

    -- `identifying = run.catch(() => undefined)`
    abbrev pub remember : Outcome (List IntegrationResult) → Browser S → Browser S
    remember run b = record b { identifying = unit_outcome run }

    -- The rest of `client.identify`, once the facade is ready.
    unfoldable pub identify_now :
        String → Option Properties → Exec (Browser S) (List IntegrationResult)
    identify_now custom_id traits b =
        let (run, b') = on_facade (Facade.identify clock custom_id (default traits empty)) b in
        (run, remember run b')

    -- `client.identify`
    unfoldable pub identify : String → Option Properties → Exec (Browser S) (List IntegrationResult)
    unfolding identify_now
    identify custom_id traits = do await_ready; identify_now custom_id traits

    -- `client.reset`
    unfoldable pub reset : Exec (Browser S) (List IntegrationResult)
    reset = do await_ready; on_facade (Facade.reset clock)

    -- `client.flush`
    unfoldable pub flush : Exec (Browser S) (List IntegrationResult)
    flush = do await_ready; on_facade (Facade.flush clock)

    -- `client.shutdown`
    unfoldable pub shutdown : Exec (Browser S) (List IntegrationResult)
    shutdown = do await_ready; on_facade (Facade.shutdown clock)

    module _ (text : Value → String) where
      -- `client.page`
      unfoldable pub page :
          PageArgument → Option Properties → PageOptions → Exec (Browser S) (List IntegrationResult)
      unfolding page_properties
      page argument properties options = do
        await_ready
        await_identifying
        window ← gets λ b. b.window
        on_facade (
            Facade.page clock (some (argument_name argument))
              (page_properties window (argument_properties argument properties))
              (with_route
                (route_text text (get "page" (argument_properties argument properties))
                  (path_of window))
                options))
