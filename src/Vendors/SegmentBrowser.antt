-- ===== src/Vendors/SegmentBrowser.antt =====
-- js/packages/segment/src/browser.ts
use iforevents_sdks.Prelude.{String, Option, [], ◌∷◌, ◌==◌, if◌then◌else◌}
use iforevents_sdks.Js.Value.{undefined, string, object, Properties, empty, entry, assign}
use iforevents_sdks.Exec.{Exec, ◌>>◌, pure}
use iforevents_sdks.Types.{IdentifyEvent, TrackEvent, PageEvent, IntegrationHooks}
use iforevents_sdks.Api.{run_hook}
use iforevents_sdks.Integration.{Integration}
use iforevents_sdks.Vendors.{
  Vendor, Adapter, call, load_vendor, with_client, without_client, set_client, page_properties,
}

-- The options, less the client that `new_adapter` stands for.
pub record Options : Type 0 where
  pub hooks : IntegrationHooks
  pub write_key : Option String
  pub config : Properties

module _ (options : Options) (vendor : Vendor) where
  unfoldable pub init : Exec Adapter (Unit {0})
  init = do
    run_hook options.hooks.on_init
    without_client options.write_key "[iforevents] SegmentIntegration needs a writeKey or a client"
        λ key. (do
          load_vendor vendor "@segment/analytics-next"
          call vendor "load"
              (object (assign (entry "writeKey" (string key) empty) options.config) ∷ [])
          set_client)

  unfoldable pub identify : IdentifyEvent → Exec Adapter (Unit {0})
  identify event = do
    run_hook (options.hooks.on_identify event)
    with_client (call vendor "identify" (string event.custom_id ∷ object event.traits ∷ []))

  unfoldable pub track : TrackEvent → Exec Adapter (Unit {0})
  track event = do
    run_hook (options.hooks.on_track event)
    with_client (call vendor "track" (string event.name ∷ object event.properties ∷ []))

  unfoldable pub page : PageEvent → Exec Adapter (Unit {0})
  page event = do
    run_hook (options.hooks.on_page event)
    with_client (
        call vendor "page" (
          undefined
          ∷ (if event.name == "page_view" then undefined else string event.name)
          ∷ object (page_properties event.properties event)
          ∷ []))

  unfoldable pub reset : Exec Adapter (Unit {0})
  reset = do run_hook options.hooks.on_reset; with_client (call vendor "reset" [])

  abbrev pub integration : Integration Adapter
  integration = record {
    name = "SegmentIntegration";
    init = init;
    identify = identify;
    track = track;
    page = page;
    reset = reset;
    flush = pure tt;
    shutdown = pure tt;
  }
