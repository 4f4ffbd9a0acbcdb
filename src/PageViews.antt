-- ===== src/PageViews.antt =====
-- js/packages/react/src/index.tsx and js/packages/next/src/index.tsx: the effects that send page
-- views. React runs an effect after the renders in which its dependencies have changed; the
-- client is one of a browser.
pub mod Changes
use Prim.Native.String.{◌++◌}
use iforevents_sdks.Prelude.{
  String, Bool, true, false, Option, none, some, List, [], ◌∷◌, ◌==◌, if◌then◌else◌,
}
use iforevents_sdks.Js.Value.{Value, Properties, empty}
use iforevents_sdks.Exec.{Outcome, ok, Exec, background}
use iforevents_sdks.Api.{truthy}
use iforevents_sdks.Api.Construct.{default}
use iforevents_sdks.Facade.{Clock, PageOptions}
use iforevents_sdks.Browser.{Window, Browser, PageArgument, absent, named, page}

-- The client, and the ref `previous`.
pub record Viewer (S : Type 0) : Type 0 where
  pub client : Browser S
  pub previous : Option String

-- `previous.current === undefined ? "load" : "route"`
abbrev pub navigation_of : Option String → String
navigation_of none = "load"
navigation_of (some route) = "route"

abbrev pub name_of : Option String → PageArgument
name_of none = absent
name_of (some name) = named name

abbrev pub is_previous : String → Option String → Bool
is_previous route none = false
is_previous route (some before) = before == route

-- `path ?? window.location.pathname`
abbrev pub route_of : Option String → Option Window → Option String
route_of (some path) window = some path
route_of none none = none
route_of none (some w) = some w.pathname

-- `${pathname}?${query}`
abbrev pub full_route : String → String → String
full_route pathname query = if query == "" then pathname else pathname ++ "?" ++ query

module _ {S : Type 0} (clock : Clock) (text : Value → String) where
  -- A page view, after which the route is the previous one.
  abbrev pub send : Option String → Option Properties → Option String → Exec (Viewer S) (Unit {0})
  send name properties route v = (
    ok tt,
    record {
      client =
          (page clock text (name_of name) properties
            (record {
              navigation_type = some (navigation_of v.previous);
              to_route = route;
              previous_route = v.previous;
            })
            v.client).1;
      previous = route;
    },
  )

  -- The effect of `usePageView`.
  unfoldable pub use_page_view : Option String → Option Properties → Exec (Viewer S) (Unit {0})
  use_page_view path properties v =
      let route = route_of path v.client.window in
      send route (some (default properties empty)) route v

  -- The effect of `PageViews`, with the path and the query of the App Router.
  unfoldable pub page_views : Option String → String → Exec (Viewer S) (Unit {0})
  page_views pathname query v = elim (truthy pathname) [
    | none ↦ (ok tt, v)
    | some path ↦
        if is_previous (full_route path query) v.previous
        then (ok tt, v)
        else send (some path) (some empty) (some (full_route path query)) v
  ]
