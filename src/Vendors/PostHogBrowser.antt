-- ===== src/Vendors/PostHogBrowser.antt =====
-- js/packages/posthog/src/browser.ts
use iforevents_sdks.Prelude.{String, false, Option, [], ◌∷◌}
use iforevents_sdks.Js.Value.{boolean, string, object, Properties, empty, entry, put, assign}
use iforevents_sdks.Exec.{Exec, ◌>>◌, pure}
use iforevents_sdks.Types.{IdentifyEvent, TrackEvent, PageEvent, IntegrationHooks}
use iforevents_sdks.Api.{run_hook}
use iforevents_sdks.Integration.{Integration}
use iforevents_sdks.Vendors.{
  Vendor, Adapter, call, load_vendor, with_client, without_client, set_client, page_properties,
}

-- The options, less the client that `new_adapter` stands for.
pub record Options : Type 0 where
  pub hooks : IntegrationHooks
  pub api_key : Option String
  pub config : Properties

-- The properties of a page view, with the name of the screen.
unfoldable pub screen_properties : PageEvent → Properties
screen_properties event =
    page_properties (put "screen_name" (string event.name) (assign empty event.properties)) event

module _ (options : Options) (vendor : Vendor) where
  unfoldable pub init : Exec Adapter (Unit {0})
  init = do
    run_hook options.hooks.on_init
    without_client options.api_key "[iforevents] PostHogIntegration needs an apiKey or a client"
        λ key. (do
          load_vendor vendor "posthog-js"
          set_client
          call vendor "init" (
              string key
              ∷ object (
                  assign
                    (entry "api_host" (string "https://us.i.posthog.com") (
                      entry "autocapture" (boolean false)
                        (entry "capture_pageview" (boolean false) empty)))
                    options.config)
              ∷ []))

  unfoldable pub identify : IdentifyEvent → Exec Adapter (Unit {0})
  identify event = do
    run_hook (options.hooks.on_identify event)
    with_client (call vendor "identify" (string event.custom_id ∷ object event.traits ∷ []))

  unfoldable pub track : TrackEvent → Exec Adapter (Unit {0})
  track event = do
    run_hook (options.hooks.on_track event)
    with_client (call vendor "capture" (string event.name ∷ object event.properties ∷ []))

  unfoldable pub page : PageEvent → Exec Adapter (Unit {0})
  page event = do
    run_hook (options.hooks.on_page event)
    with_client (call vendor "capture" (string "$pageview" ∷ object (screen_properties event) ∷ []))

  unfoldable pub reset : Exec Adapter (Unit {0})
  reset = do run_hook options.hooks.on_reset; with_client (call vendor "reset" [])

  abbrev pub integration : Integration Adapter
  integration = record {
    name = "PostHogIntegration";
    init = init;
    identify = identify;
    track = track;
    page = page;
    reset = reset;
    flush = pure tt;
    shutdown = pure tt;
  }
