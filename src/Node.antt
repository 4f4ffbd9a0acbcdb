-- ===== src/Node.antt =====
-- js/packages/node/src/index.ts: the facade of a server process. What the process and its host
-- say of themselves is the record `Host`.
pub mod Process
use iforevents_sdks.Prelude.{
  ℕ, String, Bool, true, false, Option, none, some, List, [], ◌∷◌, if◌then◌else◌,
}
use Prim.Native.String.{◌++◌}
use iforevents_sdks.Js.Value.{Value, string, object, Properties, empty, entry, put, assign}
use iforevents_sdks.Exec.{
  Outcome, ok, thrown, out_of_fuel, Exec, ◌>>=◌, ◌>>◌, pure, modify, background,
}
use iforevents_sdks.Types.{IntegrationResult}
use iforevents_sdks.Api.{Config, truthy}
use iforevents_sdks.Api.Construct.{RawConfig, construct}
use iforevents_sdks.Context.{library_of, put_text}
use iforevents_sdks.Facade.{Member, Facade, Clock, ContextProvider, new_facade}
use iforevents_sdks.Facade

-- `intl` is `none` where `Intl` throws, else its locale and time zone.
pub record Host : Type 0 where
  pub os_type : String
  pub arch : String
  pub release : String
  pub platform : String
  pub hostname : String
  pub node_version : String
  pub npm_name : Option String
  pub npm_version : Option String
  pub intl : Option (Option String × Option String)

-- What `nodeContext` says before the extra properties.
abbrev pub host_context : Host → Properties
host_context host = entry "sdk_name" (string "@iforevents/node") (
    entry "sdk_version" (string "0.1.0") (
      entry "runtime" (string ("node/" ++ host.node_version)) (
        entry "device_platform" (string "server") (
          entry "device_brand" (string host.os_type) (
            entry "device_model" (string host.arch) (
              entry "device_os_version" (string host.release) (
                entry "device_app_version"
                  (string (elim host.npm_version [ none ↦ "" | some v ↦ v ]))
                  (entry "hostname" (string host.hostname)
                    (entry "os" (string host.platform) empty)))))))))

-- `nodeContext`
unfoldable pub node_context : Host → Properties → Properties
node_context host extra = assign (host_context host) extra

abbrev pub put_intl : Option (Option String × Option String) → Properties → Properties
put_intl none p = p
put_intl (some (locale, timezone)) p =
    put_text "timezone" (truthy timezone) (put_text "locale" (truthy locale) p)

abbrev pub put_app : Option String → Option String → Properties → Properties
put_app none none p = p
put_app name version p =
    put "app" (object (put_text "version" version (put_text "name" name empty))) p

-- `nodeEventContext`
unfoldable pub node_event_context : Host → Properties
node_event_context host = put_app (truthy host.npm_name) (truthy host.npm_version) (
    put_intl host.intl (
      entry "library" (library_of "@iforevents/node" "0.1.0") (
        entry "os" (library_of host.platform host.release)
          (entry "device" (object (entry "type" (string "server") empty)) empty))))

-- The configuration that `createIforevents` passes on, with the user agent of the process.
abbrev pub node_config : Host → RawConfig → RawConfig
node_config host raw = record raw {
  user_agent = some (
      "iforevents-node/0.1.0 node/" ++ host.node_version ++ " (" ++ host.platform ++ "; "
      ++ host.arch ++ ")");
}

-- What `createIforevents` returns: the facade, and the flag that its `shutdown` closes over.
pub record NodeIforevents (S : Type 0) : Type 0 where
  pub iforevents : Facade S
  pub stopped : Bool

pub record NodeOptions (S : Type 0) : Type 0 where
  pub integrations : List (Member S)
  pub context : Properties
  pub flush_on_exit : Bool
  pub disable_api : Bool

-- `api ? [api, ...integrations] : integrations`
abbrev pub with_api : {S : Type 0} → Option (Member S) → List (Member S) → List (Member S)
with_api none integrations = integrations
with_api (some api) integrations = api ∷ integrations

-- `new_api` is the api integration of a configuration, over the network and the in-memory store.
module _ {S : Type 0} (host : Host) (clock : Clock) (new_api : Config → Member S) where
  -- The facade as it is made, before `init`.
  abbrev pub node_facade : NodeOptions S → Option (Member S) → Facade S
  node_facade options api =
      new_facade (with_api api options.integrations)
        (λ n. some (some (node_context host options.context)))

  abbrev pub started : Outcome (List IntegrationResult) → Facade S → Outcome (NodeIforevents S)
  started (ok results) facade = ok (record { iforevents = facade; stopped = false })
  started (thrown e) facade = thrown e
  started out_of_fuel facade = out_of_fuel

  unfoldable pub start : NodeOptions S → Option (Member S) → Outcome (NodeIforevents S)
  start options api =
      let (results, facade) = Facade.init clock [] none (node_facade options api) in
      started results facade

  abbrev pub start_with : NodeOptions S → Outcome Config → Outcome (NodeIforevents S)
  start_with options (ok config) = start options (some (new_api config))
  start_with options (thrown e) = thrown e
  start_with options out_of_fuel = out_of_fuel

  -- `createIforevents`
  unfoldable pub create_iforevents : NodeOptions S → RawConfig → Outcome (NodeIforevents S)
  unfolding start
  create_iforevents options raw = elim options.disable_api [
    | true ↦ start options none
    | false ↦ start_with options (construct (node_config host raw))
  ]

module _ {S : Type 0} (clock : Clock) where
  -- A call of the facade that the client holds.
  abbrev pub on_facade : {A : Type 0} → Exec (Facade S) A → Exec (NodeIforevents S) A
  on_facade call c = ((call c.iforevents).0, record c { iforevents = (call c.iforevents).1 })

  -- `shutdown`
  unfoldable pub node_shutdown : Exec (NodeIforevents S) (Unit {0})
  node_shutdown c = elim c.stopped [
    | true ↦ (ok tt, c)
    | false ↦
        ((do
          modify λ c. record c { stopped = true }
          results ← on_facade (Facade.shutdown clock)
          pure tt)
          c)
  ]

  -- The callback of `beforeExit`, where there is one.
  unfoldable pub before_exit : Bool → Exec (NodeIforevents S) (Unit {0})
  unfolding node_shutdown
  before_exit true = background node_shutdown
  before_exit false = pure tt
