-- ===== src/Vendors/Ga4.antt =====
-- js/packages/ga4/src/browser.ts. The client is the function `gtag`; the script tag that `init`
-- puts into the page is logged as a call, too.
use Prim.Native.String.{◌++◌ as str_append}
use iforevents_sdks.Prelude.{String, Bool, true, false, Option, some, [], ◌∷◌}
use iforevents_sdks.Js.Value.{
  null, boolean, string, object, instance_of, Properties, empty, entry, assign,
}
use iforevents_sdks.Errors.{other}
use iforevents_sdks.Exec.{thrown, Exec, ◌>>◌, pure}
use iforevents_sdks.Types.{IdentifyEvent, TrackEvent, PageEvent, IntegrationHooks}
use iforevents_sdks.Api.{run_hook}
use iforevents_sdks.Integration.{Integration}
use iforevents_sdks.Vendors.{
  Vendor, Adapter, call, with_client, set_client, scalarize, text_or_undefined,
}

-- The options, less the function `gtag` that `new_adapter` stands for; then the page: whether there
-- is a window and a function `gtag` on it, `encodeURIComponent`, and the time of `init`.
pub record Options : Type 0 where
  pub hooks : IntegrationHooks
  pub measurement_id : String
  pub load_script : Option Bool
  pub config : Properties
  pub window : Bool
  pub page_gtag : Bool
  pub encode : String → String
  pub now : String

module _ (options : Options) (vendor : Vendor) where
  -- The tag of gtag.js, where it is wanted.
  unfoldable pub append_script : Option Bool → Exec Adapter (Unit {0})
  append_script (some false) = pure tt
  append_script wanted = call vendor "appendChild" (
      string (
        str_append "https://www.googletagmanager.com/gtag/js?id="
          (options.encode options.measurement_id))
      ∷ [])

  abbrev pub wanted_script : Bool → Exec Adapter (Unit {0})
  wanted_script true = pure tt
  wanted_script false = append_script options.load_script

  -- `init` in a page: the tag, unless a function `gtag` is there, and the first call.
  unfoldable pub start_gtag : Exec Adapter (Unit {0})
  unfolding append_script
  start_gtag = do
    wanted_script options.page_gtag
    set_client
    call vendor "gtag" (string "js" ∷ instance_of options.now ∷ [])

  -- The part of `init` where there is no `gtag` yet.
  unfoldable pub load_gtag : Exec Adapter (Unit {0})
  load_gtag s = elim s.client [
    | true ↦ pure tt s
    | false ↦ elim options.window [
      | false ↦ (thrown (other "[iforevents] GA4Integration runs in browsers only"), s)
      | true ↦ start_gtag s
    ]
  ]

  unfoldable pub init : Exec Adapter (Unit {0})
  unfolding load_gtag
  init = do
    run_hook options.hooks.on_init
    load_gtag
    call vendor "gtag" (
        string "config"
        ∷ string options.measurement_id
        ∷ object (assign (entry "send_page_view" (boolean false) empty) options.config)
        ∷ [])

  unfoldable pub identify : IdentifyEvent → Exec Adapter (Unit {0})
  identify event = do
    run_hook (options.hooks.on_identify event)
    with_client (
        call vendor "gtag" (
          string "config"
          ∷ string options.measurement_id
          ∷ object (
              entry "user_id" (string event.custom_id)
                (entry "send_page_view" (boolean false) empty))
          ∷ []))
    with_client (
        call vendor "gtag" (
          string "set"
          ∷ string "user_properties"
          ∷ object (scalarize vendor.stringify event.traits)
          ∷ []))

  unfoldable pub track : TrackEvent → Exec Adapter (Unit {0})
  track event = do
    run_hook (options.hooks.on_track event)
    with_client (
        call vendor "gtag" (
          string "event"
          ∷ string event.name
          ∷ object (scalarize vendor.stringify event.properties)
          ∷ []))

  unfoldable pub page : PageEvent → Exec Adapter (Unit {0})
  page event = do
    run_hook (options.hooks.on_page event)
    with_client (
        call vendor "gtag" (
          string "event"
          ∷ string "page_view"
          ∷ object (
              scalarize vendor.stringify (
                assign
                  (entry "page_title" (string event.name)
                    (entry "page_path" (text_or_undefined event.to_route) empty))
                  event.properties))
          ∷ []))

  unfoldable pub reset : Exec Adapter (Unit {0})
  reset = do
    run_hook options.hooks.on_reset
    with_client (
        call vendor "gtag" (
          string "config"
          ∷ string options.measurement_id
          ∷ object (entry "user_id" null (entry "send_page_view" (boolean false) empty))
          ∷ []))

  abbrev pub integration : Integration Adapter
  integration = record {
    name = "GA4Integration";
    init = init;
    identify = identify;
    track = track;
    page = page;
    reset = reset;
    flush = pure tt;
    shutdown = pure tt;
  }
