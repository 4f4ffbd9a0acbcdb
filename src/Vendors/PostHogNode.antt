-- ===== src/Vendors/PostHogNode.antt =====
-- js/packages/posthog/src/node.ts
use iforevents_sdks.Prelude.{String, ◌&&◌, Option, none, some, [], ◌∷◌, if◌then◌else◌}
use iforevents_sdks.Js.Value.{string, object, instance_of, Properties, empty, entry, assign}
use iforevents_sdks.Exec.{Exec, ◌>>=◌, ◌>>◌, pure, gets}
use iforevents_sdks.Types.{IdentifyEvent, TrackEvent, PageEvent, IntegrationHooks}
use iforevents_sdks.Api.{run_hook}
use iforevents_sdks.Integration.{Integration}
use iforevents_sdks.Vendors.{
  Vendor, Adapter, call, load_vendor, with_client, without_client, set_client, set_person,
}
use iforevents_sdks.Vendors.PostHogBrowser.{screen_properties}

-- The options, less the client that `new_adapter` stands for.
pub record Options : Type 0 where
  pub hooks : IntegrationHooks
  pub api_key : Option String
  pub config : Properties
  pub anonymous_id : Option String

-- `who`
unfoldable pub who : Option String → Option String → String
who (some id) anonymous_id = id
who none (some id) = id
who none none = "server"

-- A message of `capture`.
abbrev pub capture_message : String → String → Properties → String → Properties
capture_message id name properties timestamp = entry "distinctId" (string id) (
    entry "event" (string name)
      (entry "properties" (object properties) (entry "timestamp" (instance_of timestamp) empty)))

module _ (options : Options) (vendor : Vendor) where
  unfoldable pub init : Exec Adapter (Unit {0})
  init = do
    run_hook options.hooks.on_init
    without_client options.api_key "[iforevents] PostHogIntegration needs an apiKey or a client"
        λ key. (do
          load_vendor vendor "posthog-node"
          call vendor "new" (
              string key
              ∷ object
                  (assign (entry "host" (string "https://us.i.posthog.com") empty) options.config)
              ∷ [])
          set_client)

  unfoldable pub identify : IdentifyEvent → Exec Adapter (Unit {0})
  identify event = do
    run_hook (options.hooks.on_identify event)
    set_person (some event.custom_id)
    with_client (
        call vendor "identify" (
          object (
            entry "distinctId" (string event.custom_id)
              (entry "properties" (object event.traits) empty))
          ∷ []))

  unfoldable pub track : TrackEvent → Exec Adapter (Unit {0})
  track event = do
    run_hook (options.hooks.on_track event)
    person ← gets λ s. s.person
    with_client (
        call vendor "capture" (
          object (
            capture_message (who person options.anonymous_id) event.name event.properties
              event.timestamp)
          ∷ []))

  unfoldable pub page : PageEvent → Exec Adapter (Unit {0})
  page event = do
    run_hook (options.hooks.on_page event)
    person ← gets λ s. s.person
    with_client (
        call vendor "capture" (
          object (
            capture_message (who person options.anonymous_id) "$pageview" (screen_properties event)
              event.timestamp)
          ∷ []))

  unfoldable pub reset : Exec Adapter (Unit {0})
  reset = do run_hook options.hooks.on_reset; set_person none

  unfoldable pub flush : Exec Adapter (Unit {0})
  flush = with_client (if vendor.has_flush then call vendor "flush" [] else pure tt)

  unfoldable pub shutdown : Exec Adapter (Unit {0})
  unfolding flush
  shutdown s = if s.client && vendor.has_shutdown then call vendor "shutdown" [] s else flush s

  abbrev pub integration : Integration Adapter
  integration = record {
    name = "PostHogIntegration";
    init = init;
    identify = identify;
    track = track;
    page = page;
    reset = reset;
    flush = flush;
    shutdown = shutdown;
  }
