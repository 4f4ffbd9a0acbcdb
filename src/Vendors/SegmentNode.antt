-- ===== src/Vendors/SegmentNode.antt =====
-- js/packages/segment/src/node.ts
use iforevents_sdks.Prelude.{String, ◌&&◌, Option, none, some, [], ◌∷◌, if◌then◌else◌}
use iforevents_sdks.Js.Value.{string, object, instance_of, Properties, empty, entry, put, assign}
use iforevents_sdks.Exec.{Exec, ◌>>=◌, ◌>>◌, pure, gets}
use iforevents_sdks.Types.{IdentifyEvent, TrackEvent, PageEvent, IntegrationHooks}
use iforevents_sdks.Api.{truthy, run_hook}
use iforevents_sdks.Integration.{Integration}
use iforevents_sdks.Vendors.{
  Vendor, Adapter, call, load_vendor, with_client, without_client, set_client, set_person,
  page_properties,
}

-- The options, less the client that `new_adapter` stands for.
pub record Options : Type 0 where
  pub hooks : IntegrationHooks
  pub write_key : Option String
  pub config : Properties
  pub anonymous_id : Option String

-- `who`
unfoldable pub who : Option String → Option String → Properties
who person anonymous_id = elim (truthy person) [
  | some id ↦ entry "userId" (string id) empty
  | none ↦ entry "anonymousId" (string (elim anonymous_id [ none ↦ "server" | some id ↦ id ])) empty
]

-- A message of `track`, where the key is `event`, or of `page`, where it is `name`.
abbrev pub message : Properties → String → String → Properties → String → Properties
message id key name properties timestamp =
    put "timestamp" (instance_of timestamp)
      (put "properties" (object properties) (put key (string name) id))

module _ (options : Options) (vendor : Vendor) where
  unfoldable pub init : Exec Adapter (Unit {0})
  init = do
    run_hook options.hooks.on_init
    without_client options.write_key "[iforevents] SegmentIntegration needs a writeKey or a client"
        λ key. (do
          load_vendor vendor "@segment/analytics-node"
          call vendor "new"
              (object (assign (entry "writeKey" (string key) empty) options.config) ∷ [])
          set_client)

  unfoldable pub identify : IdentifyEvent → Exec Adapter (Unit {0})
  identify event = do
    run_hook (options.hooks.on_identify event)
    set_person (some event.custom_id)
    with_client (
        call vendor "identify" (
          object
            (entry "userId" (string event.custom_id) (entry "traits" (object event.traits) empty))
          ∷ []))

  unfoldable pub track : TrackEvent → Exec Adapter (Unit {0})
  track event = do
    run_hook (options.hooks.on_track event)
    person ← gets λ s. s.person
    with_client (
        call vendor "track" (
          object (
            message (who person options.anonymous_id) "event" event.name event.properties
              event.timestamp)
          ∷ []))

  unfoldable pub page : PageEvent → Exec Adapter (Unit {0})
  page event = do
    run_hook (options.hooks.on_page event)
    person ← gets λ s. s.person
    with_client (
        call vendor "page" (
          object (
            message (who person options.anonymous_id) "name" event.name
              (page_properties event.properties event) event.timestamp)
          ∷ []))

  unfoldable pub reset : Exec Adapter (Unit {0})
  reset = do run_hook options.hooks.on_reset; set_person none

  unfoldable pub flush : Exec Adapter (Unit {0})
  flush = with_client (if vendor.has_flush then call vendor "flush" [] else pure tt)

  unfoldable pub shutdown : Exec Adapter (Unit {0})
  unfolding flush
  shutdown s = if s.client && vendor.has_shutdown then call vendor "closeAndFlush" [] s else flush s

  abbrev pub integration : Integration Adapter
  integration = record {
    name = "SegmentIntegration";
    init = init;
    identify = identify;
    track = track;
    page = page;
    reset = reset;
    flush = flush;
    shutdown = shutdown;
  }
