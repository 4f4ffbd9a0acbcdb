-- ===== src/Browser/Routes.antt =====
-- The page views that `autoTrack` sends.
use iforevents_sdks.Prelude.{
  String, ◌≡◌, refl, ◌∙◌, ap, Bool, true, Option, none, some, List, [], ◌∷◌,
}
use iforevents_sdks.Js.Value.{Value, empty, get}
use iforevents_sdks.Exec.{Outcome, ok, Exec}
use iforevents_sdks.Types.{IntegrationResult}
use iforevents_sdks.Api.{Config}
use iforevents_sdks.Facade.{Member, Facade, Clock}
use iforevents_sdks.Facade
use iforevents_sdks.Browser.{Window, Browser, page_properties, page}
use iforevents_sdks.Browser.Context.{Navigator}
use iforevents_sdks.Browser.Create.{
  Chosen, BrowserOptions, fire, navigate, browser_facade, start, auto_tracking, client_of,
}

-- A change of the history: the method, and the window that it leads to.
abbrev pub Change : Type 0
Change = String × Window

module _ {S : Type 0} (clock : Clock) where
  -- A page view of a window, after a route.
  abbrev pub view : String → Change → Facade S → Facade S
  view previous (method, w) f =
      (Facade.page clock (some "page_view") (page_properties (some w) empty)
        (record {
          navigation_type = some method;
          to_route = some w.pathname;
          previous_route = some previous;
        })
        f).1

  -- A page view for each change, which comes from the route of the one before.
  unfoldable pub views : String → List Change → Facade S → Facade S
  views previous [] f = f
  views previous (change ∷ changes) f = views change.1.pathname changes (view previous change f)

  module _ (text : Value → String) where
    -- The client after changes of the history.
    unfoldable pub browse : List Change → Browser S → Browser S
    browse [] b = b
    browse ((method, w) ∷ changes) b = browse changes (navigate clock text method w b).1

    -- A client whose promises have resolved.
    abbrev settled_at : Facade S → Option (Exec S (Unit {0})) → String → Option Window → Browser S
    settled_at f api path window = record {
      iforevents = f;
      api = api;
      ready = ok tt;
      identifying = ok tt;
      last_path = path;
      window = window;
    }

    fire_views :
        (f : Facade S) (api : Option (Exec S (Unit {0}))) (previous method : String) (w : Window)
        → (fire clock text method (settled_at f api previous (some w))).1
          ≡ settled_at (view previous (method, w) f) api w.pathname (some w)
    unfolding fire page get
    fire_views f api previous method w = refl

    browse-views :
        (changes : List Change) (f : Facade S) (api : Option (Exec S (Unit {0})))
        (previous : String) (window : Option Window)
        → (browse changes (settled_at f api previous window)).iforevents ≡ views previous changes f
    unfolding browse views navigate
    browse-views [] f api previous window = refl
    browse-views ((method, w) ∷ changes) f api previous window =
        ap (λ (b : Browser S). (browse changes b).iforevents) (fire_views f api previous method w)
        ∙ browse-views changes (view previous (method, w) f) api w.pathname (some w)

    -- The load, where the promise of `init` has resolved.
    loaded :
        (w : Window) (rs : List IntegrationResult) (auto : Bool)
        (results : Outcome (List IntegrationResult)) (f : Facade S)
        (api : Option (Exec S (Unit {0})))
        → auto ≡ true
        → results ≡ ok rs
        → (auto_tracking clock text auto (some w) (client_of results f api (some w))).1
          ≡ settled_at (view w.pathname ("load", w) f) api w.pathname (some w)
    loaded w rs auto results f api e h = rw (e, h) (fire_views f api w.pathname "load" w)

    module _ (navigator : Option Navigator) (new_api : Chosen → Config → Member S)
        (keepalive : Exec S (Unit {0})) (options : BrowserOptions S) (w : Window)
        (api : Option (Member S)) where
      -- The facade before the load is tracked.
      abbrev pub opened : Outcome (List IntegrationResult) × Facade S
      opened =
          Facade.init clock [] none
            (browser_facade clock text navigator new_api keepalive options api)

      start_views :
          (rs : List IntegrationResult)
          → options.auto_track ≡ true
          → opened.0 ≡ ok rs
          → start clock text navigator new_api keepalive options (some w) api
            ≡ settled_at
                (view w.pathname ("load", w) opened.1)
                (elim api [ none ↦ none | some m ↦ some keepalive ])
                w.pathname
                (some w)
      unfolding start
      start_views rs auto h = loaded w rs options.auto_track opened.0 opened.1 _ auto h

      -- With `autoTrack`, where `init` has resolved, the facade of a page is at any time the one
      -- that was initialised, after one page view for each change of the history, in order: the
      -- first is that of the load, each has the path of its own window as its route, and as the
      -- previous route that of the view before; that of the load is its own.
      pub browse_tracks :
          (rs : List IntegrationResult) (changes : List Change)
          → options.auto_track ≡ true
          → opened.0 ≡ ok rs
          → (browse changes
              (start clock text navigator new_api keepalive options (some w) api)).iforevents
            ≡ views w.pathname (("load", w) ∷ changes) opened.1
      unfolding views
      browse_tracks rs changes auto h =
          ap (λ (b : Browser S). (browse changes b).iforevents) (start_views rs auto h)
          ∙ browse-views changes (view w.pathname ("load", w) opened.1) _ w.pathname (some w)
