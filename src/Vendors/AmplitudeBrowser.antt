-- ===== src/Vendors/AmplitudeBrowser.antt =====
-- js/packages/amplitude/src/browser.ts. The builder `Identify` is the object of what is set on it.
use iforevents_sdks.Prelude.{String, false, Option, [], ◌∷◌}
use iforevents_sdks.Js.Value.{boolean, string, object, Properties, empty, entry, assign}
use iforevents_sdks.Exec.{Exec, ◌>>◌, pure}
use iforevents_sdks.Types.{IdentifyEvent, TrackEvent, PageEvent, IntegrationHooks}
use iforevents_sdks.Api.{run_hook}
use iforevents_sdks.Integration.{Integration}
use iforevents_sdks.Vendors.{
  Vendor, Adapter, call, load_vendor, with_client, without_client, set_client, scalarize,
  page_properties, name_or_page_view,
}

-- The options, less the client that `new_adapter` stands for.
pub record Options : Type 0 where
  pub hooks : IntegrationHooks
  pub api_key : Option String
  pub config : Properties

module _ (options : Options) (vendor : Vendor) where
  unfoldable pub init : Exec Adapter (Unit {0})
  init = do
    run_hook options.hooks.on_init
    without_client options.api_key "[iforevents] AmplitudeIntegration needs an apiKey or a client"
        λ key. (do
          load_vendor vendor "@amplitude/analytics-browser"
          set_client
          call vendor "init" (
              string key
              ∷ object (assign (entry "autocapture" (boolean false) empty) options.config)
              ∷ []))

  unfoldable pub identify : IdentifyEvent → Exec Adapter (Unit {0})
  identify event = do
    run_hook (options.hooks.on_identify event)
    with_client (do
      call vendor "setUserId" (string event.custom_id ∷ [])
      call vendor "identify" (object (scalarize vendor.stringify event.traits) ∷ []))

  unfoldable pub track : TrackEvent → Exec Adapter (Unit {0})
  track event = do
    run_hook (options.hooks.on_track event)
    with_client (
        call vendor "track"
          (string event.name ∷ object (scalarize vendor.stringify event.properties) ∷ []))

  unfoldable pub page : PageEvent → Exec Adapter (Unit {0})
  page event = do
    run_hook (options.hooks.on_page event)
    with_client (
        call vendor "track" (
          string (name_or_page_view event.name)
          ∷ object (scalarize vendor.stringify (page_properties event.properties event))
          ∷ []))

  unfoldable pub reset : Exec Adapter (Unit {0})
  reset = do run_hook options.hooks.on_reset; with_client (call vendor "reset" [])

  abbrev pub integration : Integration Adapter
  integration = record {
    name = "AmplitudeIntegration";
    init = init;
    identify = identify;
    track = track;
    page = page;
    reset = reset;
    flush = pure tt;
    shutdown = pure tt;
  }
