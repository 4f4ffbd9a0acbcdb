-- ===== src/Context/Platforms/Web.antt =====
-- The context of the browser package.
use iforevents_sdks.Prelude.{
  ◌≡◌, refl, String, true, Option, none, some, ◌==◌, Bool-cases, Option-cases, inl, inr,
}
use iforevents_sdks.Js.Value.{string, object, Properties, empty, entry, put, has, get}
use iforevents_sdks.Api.{truthy}
use iforevents_sdks.Context.{
  SearchParams, put_text, campaign_of, campaign_fields, unless_empty, campaign_from_search,
  library_of,
}
use iforevents_sdks.Context.Shapes.{shape_at, fits, all_fit, campaign_shape, event_context_fields}
use iforevents_sdks.Api.Construct.{default}
use iforevents_sdks.Browser.Agent.{Agent, parse_user_agent}
use iforevents_sdks.Context.Fits.{campaign_of-all_fit}
use iforevents_sdks.Browser.Context.{
  Navigator, put_os, put_campaign, campaign_at, browser_event_context,
}
use iforevents_sdks.Browser.Context as BrowserContext
use iforevents_sdks.Context.Platforms.Labels.{SentBy, put-SentBy, put_text-SentBy}

put_campaign-SentBy :
    (campaign p : Properties)
    → all_fit campaign campaign_shape ≡ true
    → SentBy "@iforevents/browser" p
    → SentBy "@iforevents/browser" (put_campaign (unless_empty campaign) p)
unfolding fits
put_campaign-SentBy empty p c h = h
put_campaign-SentBy (entry k v campaign) p c h =
    put-SentBy "@iforevents/browser" "campaign" (object (entry k v campaign)) p refl c h

campaign_at-SentBy :
    (parse : String → Option SearchParams) (query : Option String) (p : Properties)
    → SentBy "@iforevents/browser" p
    → SentBy "@iforevents/browser" (put_campaign (campaign_at parse query) p)
unfolding campaign_from_search fits
campaign_at-SentBy parse none p h = h
campaign_at-SentBy parse (some query) p h = elim (Option-cases (parse search)) [
  | inl refused ↦ rw (refused, put_campaign) h
  | inr (params, read) ↦
      rw (read, put_campaign)
        (put_campaign-SentBy (campaign_of params campaign_fields empty) p
          (campaign_of-all_fit campaign_shape params campaign_fields empty
            (refl, (refl, (refl, (refl, (refl, tt))))) refl)
          h)
]

os-fits :
    (name : String) (version : Option String)
    → fits
        (object (put_text "version" version (entry "name" (string name) empty)))
        (shape_at "os" event_context_fields)
      ≡ true
unfolding put fits
os-fits name none = refl
os-fits name (some v) = refl

put_os-SentBy :
    (agent : Agent) (p : Properties)
    → SentBy "@iforevents/browser" p
    → SentBy "@iforevents/browser" (put_os agent p)
put_os-SentBy agent p h = elim (Bool-cases (agent.os == "Unknown")) [
  | inl unknown ↦ rw unknown h
  | inr known ↦ rw known (
      put-SentBy "@iforevents/browser" "os" _ p refl
        (os-fits agent.os (truthy (some agent.os_version))) h)
]

put_version-SentBy :
    (version : String) (p : Properties)
    → SentBy "@iforevents/browser" p
    → SentBy "@iforevents/browser" (BrowserContext.put_app version p)
unfolding fits
put_version-SentBy version p h = elim (Bool-cases (version == "")) [
  | inl missing ↦ rw missing h
  | inr given ↦ rw given (put-SentBy "@iforevents/browser" "app" _ p refl refl h)
]

browser_base : SentBy "@iforevents/browser" (
    entry "library"
      (library_of "@iforevents/browser" "0.1.0")
      (entry "device" (object (entry "type" (string "web") empty)) empty))
unfolding fits has get
browser_base = (refl, refl)

pub browser-SentBy :
    (parse : String → Option SearchParams) (navigator : Option Navigator) (query : Option String)
    (app_version : String)
    → SentBy "@iforevents/browser" (browser_event_context parse navigator query app_version)
unfolding browser_event_context
browser-SentBy parse none query app_version = browser_base
browser-SentBy parse (some n) query app_version = campaign_at-SentBy parse query _ (
    put_version-SentBy app_version _ (
      put_text-SentBy "@iforevents/browser" "timezone" (truthy (default n.time_zone none)) _ refl
        refl
        (put_text-SentBy "@iforevents/browser" "locale" (truthy n.language) _ refl refl
          (put_os-SentBy (parse_user_agent (default n.user_agent "")) _ browser_base))))
