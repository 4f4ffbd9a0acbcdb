-- ===== src/Types.antt =====
-- js/packages/core/src/types.ts, with a Date as the text of its `toISOString()`, and the hooks of
-- integration.ts.
use iforevents_sdks.Prelude.{String, Bool, Option, none}
use iforevents_sdks.Js.Value.{Properties}
use iforevents_sdks.Errors.{Error}

pub data EventType : Type 0 where
  track page_view : EventType

pub record IdentifyEvent : Type 0 where
  pub custom_id : String
  pub traits : Properties

pub record TrackEvent : Type 0 where
  pub name : String
  pub kind : EventType
  pub properties : Properties
  pub timestamp : String

pub record PageEvent : Type 0 where
  pub name : String
  pub properties : Properties
  pub navigation_type : Option String
  pub to_route : Option String
  pub previous_route : Option String
  pub timestamp : String

pub record IntegrationResult : Type 0 where
  pub integration : String
  pub success : Bool
  pub error : Option Error
  pub timestamp : String

abbrev pub event_type : EventType → String
event_type track = "track"
event_type page_view = "page_view"

-- A hook returns what it throws, if it throws; an absent hook is `λ _. none`.
pub record IntegrationHooks : Type 0 where
  pub on_init : Option Error
  pub on_identify : IdentifyEvent → Option Error
  pub on_track : TrackEvent → Option Error
  pub on_page : PageEvent → Option Error
  pub on_reset : Option Error

abbrev pub no_hooks : IntegrationHooks
no_hooks = record {
  on_init = none;
  on_identify = λ _. none;
  on_track = λ _. none;
  on_page = λ _. none;
  on_reset = none;
}
