-- ===== src/Browser/Context.antt =====
-- js/packages/browser/src/context.ts: what a browser says of itself. `Navigator` is the record of
-- the globals that it reads; `URLSearchParams` is a parameter, as in `Context`.
use iforevents_sdks.Prelude.{String, Option, none, some, ◌==◌, if◌then◌else◌}
use iforevents_sdks.Js.Number.{Number}
use iforevents_sdks.Js.Value.{string, number, object, Properties, empty, entry, put, assign}
use iforevents_sdks.Api.{truthy}
use iforevents_sdks.Api.Construct.{default}
use iforevents_sdks.Context.{SearchParams, campaign_from_search, library_of, put_text}
use iforevents_sdks.Browser.Agent.{Agent, parse_user_agent}

-- `time_zone` is `none` where `Intl` throws.
pub record Navigator : Type 0 where
  pub user_agent : Option String
  pub language : Option String
  pub screen : Option (Number × Number)
  pub time_zone : Option (Option String)

abbrev pub screen_info : Option (Number × Number) → Properties
screen_info none = empty
screen_info (some (width, height)) =
    entry "screen_width" (number width) (entry "screen_height" (number height) empty)

-- What `browserContext` says before the extra properties.
unfoldable pub own_context : Option Navigator → Properties
own_context none =
    entry "sdk_name" (string "@iforevents/browser")
      (entry "sdk_version" (string "0.1.0") (entry "runtime" (string "unknown") empty))
own_context (some navigator) =
    let ua = default navigator.user_agent "" in
    let agent = parse_user_agent ua in
    assign
      (entry "sdk_name" (string "@iforevents/browser") (
        entry "sdk_version" (string "0.1.0") (
          entry "runtime" (string "browser") (
            entry "device_platform" (string "web") (
              entry "device_brand" (string agent.browser) (
                entry "device_model" (string agent.os) (
                  entry "device_os_version" (string agent.os_version) (
                    entry "device_app_version" (string "") (
                      entry "language" (string (default navigator.language "")) (
                        entry "user_agent" (string ua) (
                          entry "timezone" (string (default (default navigator.time_zone none) ""))
                            empty)))))))))))
      (screen_info navigator.screen)

-- `browserContext`
unfoldable pub browser_context : Option Navigator → Properties → Properties
unfolding own_context
browser_context navigator extra = assign (own_context navigator) extra

-- `if (os !== "Unknown") context.os = ...`
abbrev pub put_os : Agent → Properties → Properties
put_os agent p =
    if agent.os == "Unknown"
    then p
    else put "os"
        (object (
          put_text "version" (truthy (some agent.os_version))
            (entry "name" (string agent.os) empty)))
        p

abbrev pub put_app : String → Properties → Properties
put_app app_version p =
    if app_version == ""
    then p
    else put "app" (object (entry "version" (string app_version) empty)) p

abbrev pub put_campaign : Option Properties → Properties → Properties
put_campaign none p = p
put_campaign (some campaign) p = put "campaign" (object campaign) p

-- The campaign of a location, where there is one.
abbrev pub campaign_at : (String → Option SearchParams) → Option String → Option Properties
campaign_at parse none = none
campaign_at parse (some search) = campaign_from_search parse search

-- `browserEventContext`; `search` is the query of the location, if there is a location.
unfoldable pub browser_event_context :
    (String → Option SearchParams) → Option Navigator → Option String → String → Properties
browser_event_context parse navigator search app_version =
    let base =
      entry "library" (library_of "@iforevents/browser" "0.1.0")
        (entry "device" (object (entry "type" (string "web") empty)) empty) in
    elim navigator [
      | none ↦ base
      | some n ↦ put_campaign (campaign_at parse search) (
          put_app app_version (
            put_text "timezone" (truthy (default n.time_zone none)) (
              put_text "locale" (truthy n.language)
                (put_os (parse_user_agent (default n.user_agent "")) base))))
    ]
