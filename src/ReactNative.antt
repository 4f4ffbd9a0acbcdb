-- ===== src/ReactNative.antt =====
-- js/packages/react-native/src/index.ts: the facade of an app. A call is run to its end before the
-- next.
pub mod Context
pub mod Navigation
use iforevents_sdks.Prelude.{
  ℕ, String, Bool, true, false, ◌||◌, Option, none, some, List, [], ◌∷◌, ◌==◌, if◌then◌else◌,
}
use iforevents_sdks.Js.Value.{Value, string, Properties, empty}
use iforevents_sdks.Exec.{
  Outcome, ok, thrown, out_of_fuel, Exec, ◌>>=◌, ◌>>◌, pure, gets, modify, unit_outcome,
  void_outcome, background,
}
use iforevents_sdks.Types.{IntegrationResult}
use iforevents_sdks.Api.{Config}
use iforevents_sdks.Api.Construct.{RawConfig, construct, default}
use iforevents_sdks.Facade.{Member, Facade, Clock, PageOptions, new_facade, add_integration}
use iforevents_sdks.Facade
use iforevents_sdks.ReactNative.Context.{
  Device, StorageChoice, passed, pick_storage, react_native_context,
}

-- What `createReactNativeIforevents` closes over: the facade, whether there is an api integration,
-- and what the promises `ready` and `identifying` come to.
pub record Native (S : Type 0) : Type 0 where
  pub iforevents : Facade S
  pub has_api : Bool
  pub ready : Outcome (Unit {0})
  pub identifying : Outcome (Unit {0})

pub record NativeOptions (S : Type 0) : Type 0 where
  pub integrations : List (Member S)
  pub context : Properties
  pub flush_on_background : Bool
  pub disable_api : Bool
  pub has_storage : Bool
  pub config : RawConfig

abbrev pub no_options : PageOptions
no_options = record { navigation_type = none; to_route = none; previous_route = none }

-- The client with its promises.
abbrev pub client_of : {S : Type 0} → Bool → Outcome (List IntegrationResult) × Facade S → Native S
client_of has_api (results, facade) = record {
  iforevents = facade;
  has_api = has_api;
  ready = void_outcome results;
  identifying = ok tt;
}

module _ {S : Type 0} (clock : Clock) where
  abbrev pub on_facade : {A : Type 0} → Exec (Facade S) A → Exec (Native S) A
  on_facade call c = ((call c.iforevents).0, record c { iforevents = (call c.iforevents).1 })

  abbrev pub await_ready : Exec (Native S) (Unit {0})
  await_ready c = (c.ready, c)

  abbrev pub await_identifying : Exec (Native S) (Unit {0})
  await_identifying c = (c.identifying, c)

  -- `client.track`
  unfoldable pub track : String → Option Properties → Exec (Native S) (List IntegrationResult)
  track name properties = do
    await_ready
    await_identifying
    on_facade (Facade.track clock name (default properties empty))

  -- `client.screen`
  unfoldable pub screen :
      String → Option Properties → Option PageOptions → Exec (Native S) (List IntegrationResult)
  screen name properties options = do
    await_ready
    await_identifying
    on_facade
        (Facade.screen clock (some name) (default properties empty) (default options no_options))

  -- The rest of `client.identify`, with `identifying = run.catch(() => undefined)`.
  unfoldable pub identify_now :
      String → Option Properties → Exec (Native S) (List IntegrationResult)
  identify_now custom_id traits c =
      let (run, c') = on_facade (Facade.identify clock custom_id (default traits empty)) c in
      (run, record c' { identifying = unit_outcome run })

  -- `client.identify`
  unfoldable pub identify : String → Option Properties → Exec (Native S) (List IntegrationResult)
  unfolding identify_now
  identify custom_id traits = do await_ready; identify_now custom_id traits

  -- `client.reset`
  unfoldable pub reset : Exec (Native S) (List IntegrationResult)
  reset = do await_ready; on_facade (Facade.reset clock)

  -- `client.flush`
  unfoldable pub flush : Exec (Native S) (List IntegrationResult)
  flush = do await_ready; on_facade (Facade.flush clock)

  -- `client.shutdown`
  unfoldable pub shutdown : Exec (Native S) (List IntegrationResult)
  shutdown = do await_ready; on_facade (Facade.shutdown clock)

  -- The listener of the state of the app, where `flushOnBackground` is set.
  unfoldable pub app_state : Bool → String → Exec (Native S) (Unit {0})
  unfolding flush
  app_state false state = pure tt
  app_state true state =
      if (state == "background") || (state == "inactive") then background flush else pure tt

  -- `new_api` is the api integration of a configuration and a store.
  module _ (device : Device) (new_api : StorageChoice → Config → Member S) where
    -- The facade as it is made, before `init`.
    abbrev pub native_facade : NativeOptions S → Facade S
    native_facade options =
        new_facade options.integrations
          (λ n. some (some (react_native_context device options.context)))

    -- `ready`, where the api integration is used: it is registered last.
    abbrev pub with_api : NativeOptions S → StorageChoice → Outcome Config → Native S
    with_api options chosen (ok config) = client_of true (
        Facade.init clock [] none (add_integration (new_api chosen config) (native_facade options)))
    with_api options chosen (thrown e) = client_of false (thrown e, native_facade options)
    with_api options chosen out_of_fuel = client_of false (out_of_fuel, native_facade options)

    -- `{ persistQueue: true, ...apiConfig, projectKey }`
    abbrev pub native_config : String → RawConfig → RawConfig
    native_config project_key raw = record raw {
      project_key = string project_key;
      persist_queue = some (default raw.persist_queue true);
    }

    -- `createReactNativeIforevents`, once `ready` has come to its end.
    unfoldable pub create_react_native_iforevents :
        String → NativeOptions S → Option Bool → Native S
    unfolding pick_storage
    create_react_native_iforevents project_key options has_get_item = elim options.disable_api [
      | true ↦ client_of false (Facade.init clock [] none (native_facade options))
      | false ↦
          with_api options
            (elim options.has_storage [ true ↦ passed | false ↦ pick_storage has_get_item ])
            (construct (native_config project_key options.config))
    ]
