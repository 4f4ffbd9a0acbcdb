-- ===== src/Context.antt =====
-- js/packages/core/src/context.ts: the contexts of a platform without a package of its own, and
-- the campaign of a page. `URLSearchParams` is a parameter, `none` where its constructor throws.
pub mod Campaign
pub mod Shapes
pub mod Fits
pub mod Platforms
use iforevents_sdks.Prelude.{String, Bool, true, false, Option, none, some, List, [], ◌∷◌}
use Prim.Native.String.{◌++◌}
use iforevents_sdks.Js.Value.{Value, string, object, Properties, empty, entry, put}
use iforevents_sdks.Api.{truthy}

-- What the global object has: Deno, Bun, the version of node, a navigator with a user agent.
pub record Globals : Type 0 where
  pub deno : Bool
  pub bun : Bool
  pub node : Option String
  pub navigator : Bool

-- `detectRuntime`
unfoldable pub detect_runtime : Globals → String
detect_runtime g = elim g.deno [
  | true ↦ "deno"
  | false ↦ elim g.bun [
    | true ↦ "bun"
    | false ↦ elim (truthy g.node) [
      | some version ↦ "node/" ++ version
      | none ↦ elim g.navigator [ true ↦ "browser" | false ↦ "unknown" ]
    ]
  ]
]

-- `defaultContext`
unfoldable pub default_context : Globals → Properties
default_context g =
    entry "sdk_name" (string "@iforevents/core")
      (entry "sdk_version" (string "0.1.0") (entry "runtime" (string (detect_runtime g)) empty))

-- The `library` of an event context.
abbrev pub library_of : String → String → Value
library_of name version =
    object (entry "name" (string name) (entry "version" (string version) empty))

-- `defaultEventContext`
unfoldable pub default_event_context : Properties
default_event_context = entry "library" (library_of "@iforevents/core" "0.1.0") empty

abbrev pub SearchParams : Type 0
SearchParams = String → Option String

abbrev pub campaign_fields : List (String × String)
campaign_fields =
    ("utm_source", "source")
    ∷ ("utm_medium", "medium")
    ∷ ("utm_campaign", "name")
    ∷ ("utm_term", "term")
    ∷ ("utm_content", "content")
    ∷ []

-- `if (value) campaign[field] = value;`
abbrev pub put_text : String → Option String → Properties → Properties
put_text field none p = p
put_text field (some value) p = put field (string value) p

abbrev pub campaign_of : SearchParams → List (String × String) → Properties → Properties
campaign_of params [] campaign = campaign
campaign_of params ((param, field) ∷ fields) campaign =
    campaign_of params fields (put_text field (truthy (params param)) campaign)

abbrev pub unless_empty : Properties → Option Properties
unless_empty empty = none
unless_empty (entry k v p) = some (entry k v p)

-- `campaignFromSearch`
unfoldable pub campaign_from_search : (String → Option SearchParams) → String → Option Properties
campaign_from_search parse search = elim (parse search) [
  | none ↦ none
  | some params ↦ unless_empty (campaign_of params campaign_fields empty)
]
