-- ===== src/Vendors/MixpanelBrowser.antt =====
-- js/packages/mixpanel/src/browser.ts
use iforevents_sdks.Prelude.{String, false, Option, [], ◌∷◌}
use iforevents_sdks.Js.Value.{boolean, string, object, Properties, empty, entry, assign}
use iforevents_sdks.Exec.{Exec, ◌>>◌, pure}
use iforevents_sdks.Types.{IdentifyEvent, TrackEvent, PageEvent, IntegrationHooks}
use iforevents_sdks.Api.{run_hook}
use iforevents_sdks.Integration.{Integration}
use iforevents_sdks.Vendors.{
  Vendor, Adapter, call, load_vendor, with_client, without_client, set_client, scalarize,
  page_properties, name_or_page_view,
}

-- The options, less the client that `new_adapter` stands for.
pub record Options : Type 0 where
  pub hooks : IntegrationHooks
  pub token : Option String
  pub config : Properties

module _ (options : Options) (vendor : Vendor) where
  unfoldable pub init : Exec Adapter (Unit {0})
  init = do
    run_hook options.hooks.on_init
    without_client options.token "[iforevents] MixpanelIntegration needs a token or a client"
        λ token. (do
          load_vendor vendor "mixpanel-browser"
          set_client
          call vendor "init" (
              string token
              ∷ object (assign (entry "track_pageview" (boolean false) empty) options.config)
              ∷ []))

  unfoldable pub identify : IdentifyEvent → Exec Adapter (Unit {0})
  identify event = do
    run_hook (options.hooks.on_identify event)
    with_client (call vendor "identify" (string event.custom_id ∷ []))
    with_client (call vendor "people.set" (object (scalarize vendor.stringify event.traits) ∷ []))

  unfoldable pub track : TrackEvent → Exec Adapter (Unit {0})
  track event = do
    run_hook (options.hooks.on_track event)
    with_client (
        call vendor "track"
          (string event.name ∷ object (scalarize vendor.stringify event.properties) ∷ []))

  unfoldable pub page : PageEvent → Exec Adapter (Unit {0})
  page event = do
    run_hook (options.hooks.on_page event)
    with_client (
        call vendor "track" (
          string (name_or_page_view event.name)
          ∷ object (scalarize vendor.stringify (page_properties event.properties event))
          ∷ []))

  unfoldable pub reset : Exec Adapter (Unit {0})
  reset = do run_hook options.hooks.on_reset; with_client (call vendor "reset" [])

  abbrev pub integration : Integration Adapter
  integration = record {
    name = "MixpanelIntegration";
    init = init;
    identify = identify;
    track = track;
    page = page;
    reset = reset;
    flush = pure tt;
    shutdown = pure tt;
  }
