-- ===== src/Vendors/MixpanelNode.antt =====
-- js/packages/mixpanel/src/node.ts. The client answers by the callback that each call is given;
-- where there is no client, nobody calls it.
use iforevents_sdks.Prelude.{String, true, false, Option, none, some, [], ◌∷◌, ◌/◌}
use iforevents_sdks.Js.Value.{string, object, number, Properties, empty, put, assign}
use iforevents_sdks.Exec.{Exec, ◌>>=◌, ◌>>◌, pure, gets, unsettled}
use iforevents_sdks.Types.{IdentifyEvent, TrackEvent, PageEvent, IntegrationHooks}
use iforevents_sdks.Api.{truthy, run_hook}
use iforevents_sdks.Integration.{Integration}
use iforevents_sdks.Vendors.{
  Vendor, Adapter, call, load_vendor, without_client, set_client, set_person, scalarize,
  page_as_track,
}
use iforevents_sdks.Js.Number.{of_ℕ}

-- The options, less the client that `new_adapter` stands for.
pub record Options : Type 0 where
  pub hooks : IntegrationHooks
  pub token : Option String
  pub config : Properties

-- `if (this.distinctId) props.distinct_id = this.distinctId;`
abbrev pub put_distinct : Option String → Properties → Properties
put_distinct none p = p
put_distinct (some id) p = put "distinct_id" (string id) p

-- `call`, of a method of the client
unfoldable pub call_back : Exec Adapter (Unit {0}) → Exec Adapter (Unit {0})
call_back m s = elim s.client [ true ↦ m s | false ↦ unsettled s ]

module _ (options : Options) (vendor : Vendor) where
  unfoldable pub init : Exec Adapter (Unit {0})
  init = do
    run_hook options.hooks.on_init
    without_client options.token "[iforevents] MixpanelIntegration needs a token or a client"
        λ token. (do
          load_vendor vendor "mixpanel"
          call vendor "init" (string token ∷ object options.config ∷ [])
          set_client)

  unfoldable pub identify : IdentifyEvent → Exec Adapter (Unit {0})
  identify event = do
    run_hook (options.hooks.on_identify event)
    set_person (some event.custom_id)
    call_back (
        call vendor "people.set"
          (string event.custom_id ∷ object (scalarize vendor.stringify event.traits) ∷ []))

  -- The properties that `track` sends.
  abbrev pub track_properties : TrackEvent → Option String → Properties
  track_properties event person = put_distinct (truthy person) (
      put "time" (number (of_ℕ (vendor.milliseconds event.timestamp / 1000)))
        (assign empty (scalarize vendor.stringify event.properties)))

  unfoldable pub track : TrackEvent → Exec Adapter (Unit {0})
  track event = do
    run_hook (options.hooks.on_track event)
    person ← gets λ s. s.person
    call_back
        (call vendor "track" (string event.name ∷ object (track_properties event person) ∷ []))

  unfoldable pub page : PageEvent → Exec Adapter (Unit {0})
  page event = do run_hook (options.hooks.on_page event); track (page_as_track event)

  unfoldable pub reset : Exec Adapter (Unit {0})
  reset = do run_hook options.hooks.on_reset; set_person none

  abbrev pub integration : Integration Adapter
  integration = record {
    name = "MixpanelIntegration";
    init = init;
    identify = identify;
    track = track;
    page = page;
    reset = reset;
    flush = pure tt;
    shutdown = pure tt;
  }
