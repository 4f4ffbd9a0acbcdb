-- ===== src/Context/Platforms.antt =====
-- The contexts that the packages send, against the interface `EventContext`.
pub mod Labels
pub mod Server
pub mod Web
pub mod Native
use iforevents_sdks.Prelude.{
  ◌⊎◌, ◌≡◌, refl, String, Bool, true, false, ◌&&◌, ◌||◌, Option, none, some, List, [], ◌∷◌, ◌==◌,
  if◌then◌else◌, eq_iff, All, arith, Bool-cases, Option-cases, inl, inr,
}
use iforevents_sdks.Js.Value.{Value, string, object, Properties, empty, entry, put, has}
use iforevents_sdks.Api.{truthy}
use iforevents_sdks.Context.{
  SearchParams, put_text, campaign_of, campaign_fields, unless_empty, campaign_from_search,
  default_event_context, library_of,
}
use iforevents_sdks.Context.Shapes.{
  Shape, text, Fields, fields_of, shape_at, fits, all_fit, campaign_shape, event_context_fields,
}
use iforevents_sdks.Api.Construct.{default}
use iforevents_sdks.Browser.Agent.{Agent, parse_user_agent}
use iforevents_sdks.Context.Fits.{put-all_fit, put_text-all_fit, campaign_of-all_fit}
use iforevents_sdks.Node.{Host, node_event_context, put_intl}
use iforevents_sdks.Node
use iforevents_sdks.Browser.Context.{
  Navigator, put_os, put_campaign, campaign_at, browser_event_context,
}
use iforevents_sdks.Browser.Context as BrowserContext
use iforevents_sdks.ReactNative.Context.{
  Device, DeviceInfo, device_type, put_info, react_native_event_context,
}
use iforevents_sdks.ReactNative.Context as NativeContext
use iforevents_sdks.Context.Platforms.Server.{default-SentBy, node-SentBy}
use iforevents_sdks.Context.Platforms.Web.{browser-SentBy}
use iforevents_sdks.Context.Platforms.Native.{native-SentBy}
use iforevents_sdks.Context.Platforms.Labels.{SentBy}

-- Each of the contexts that the packages send with a request is an `EventContext`: its fields are
-- those of the interface, with values of their types, and the type of its device is `web`, `ios`,
-- `android`, `desktop` or `server`. Each has a library, whose name is that of the package that
-- sends it, @iforevents/core, /node, /browser or /react-native, and whose version is 0.1.0.
pub contexts-EventContext :
    (host : Host) (parse : String → Option SearchParams) (navigator : Option Navigator)
    (query : Option String) (app_version : String) (device : Device)
    → SentBy "@iforevents/core" default_event_context
      × SentBy "@iforevents/node" (node_event_context host)
      × SentBy "@iforevents/browser" (browser_event_context parse navigator query app_version)
      × SentBy "@iforevents/react-native" (react_native_event_context device)
contexts-EventContext host parse navigator query app_version device = (
  default-SentBy,
  node-SentBy host,
  browser-SentBy parse navigator query app_version,
  native-SentBy device,
)
