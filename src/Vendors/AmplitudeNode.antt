-- ===== src/Vendors/AmplitudeNode.antt =====
-- js/packages/amplitude/src/node.ts. The builder `Identify` is the object of what is set on it.
use iforevents_sdks.Prelude.{String, Option, none, some, [], ◌∷◌}
use iforevents_sdks.Js.Value.{string, object, number, Properties, empty, entry, put}
use iforevents_sdks.Js.Number.{of_ℕ}
use iforevents_sdks.Exec.{Exec, ◌>>=◌, ◌>>◌, gets}
use iforevents_sdks.Types.{IdentifyEvent, TrackEvent, PageEvent, IntegrationHooks}
use iforevents_sdks.Api.{truthy, run_hook}
use iforevents_sdks.Integration.{Integration}
use iforevents_sdks.Vendors.{
  Vendor, Adapter, call, load_vendor, with_client, without_client, set_client, set_person,
  scalarize, page_as_track,
}

-- The options, less the client that `new_adapter` stands for.
pub record Options : Type 0 where
  pub hooks : IntegrationHooks
  pub api_key : Option String
  pub config : Properties
  pub device_id : Option String

-- `target`
unfoldable pub target : Option String → Option String → Properties
target person device_id = elim (truthy person) [
  | some id ↦ entry "user_id" (string id) empty
  | none ↦ entry "device_id" (string (elim device_id [ none ↦ "server" | some d ↦ d ])) empty
]

module _ (options : Options) (vendor : Vendor) where
  unfoldable pub init : Exec Adapter (Unit {0})
  init = do
    run_hook options.hooks.on_init
    without_client options.api_key "[iforevents] AmplitudeIntegration needs an apiKey or a client"
        λ key. (do
          load_vendor vendor "@amplitude/analytics-node"
          set_client
          call vendor "init" (string key ∷ object options.config ∷ []))

  unfoldable pub identify : IdentifyEvent → Exec Adapter (Unit {0})
  identify event = do
    run_hook (options.hooks.on_identify event)
    with_client (do
      set_person (some event.custom_id)
      call vendor "identify" (
          object (scalarize vendor.stringify event.traits)
          ∷ object (entry "user_id" (string event.custom_id) empty)
          ∷ []))

  unfoldable pub track : TrackEvent → Exec Adapter (Unit {0})
  track event = do
    run_hook (options.hooks.on_track event)
    person ← gets λ s. s.person
    with_client (
        call vendor "track" (
          string event.name
          ∷ object (scalarize vendor.stringify event.properties)
          ∷ object (
              put "time" (number (of_ℕ (vendor.milliseconds event.timestamp)))
                (target person options.device_id))
          ∷ []))

  unfoldable pub page : PageEvent → Exec Adapter (Unit {0})
  page event = do run_hook (options.hooks.on_page event); track (page_as_track event)

  unfoldable pub reset : Exec Adapter (Unit {0})
  reset = do run_hook options.hooks.on_reset; set_person none

  unfoldable pub flush : Exec Adapter (Unit {0})
  flush = with_client (call vendor "flush" [])

  abbrev pub integration : Integration Adapter
  integration = record {
    name = "AmplitudeIntegration";
    init = init;
    identify = identify;
    track = track;
    page = page;
    reset = reset;
    flush = flush;
    shutdown = flush;
  }
