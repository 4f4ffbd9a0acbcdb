-- ===== src/PageViews/Changes.antt =====
-- The page views of Next's App Router.
use iforevents_sdks.Prelude.{
  String, ◌≡◌, refl, ◌∙◌, ap, sym, true, false, Bool-cases, Option-cases, inl, inr, Option, none,
  some, List, [], ◌∷◌, if◌then◌else◌, Bool, ◌==◌, eq_iff, arith,
}
use Prim.Native.String.{◌++◌}
use iforevents_sdks.Js.Value.{Value, empty, get}
use iforevents_sdks.Exec.{ok, Exec}
use iforevents_sdks.Api.{truthy}
use iforevents_sdks.Facade.{Facade, Clock}
use iforevents_sdks.Facade
use iforevents_sdks.Browser.{Window, page, page_properties}
use iforevents_sdks.PageViews.{Viewer, navigation_of, is_previous, full_route, send, page_views}

-- A render: the path, the query and the window then.
pub record Render : Type 0 where
  pub pathname : Option String
  pub query : String
  pub window : Option Window

-- A page view to send: the path, the route with the query, and the window.
pub record View : Type 0 where
  pub name : String
  pub route : String
  pub window : Option Window

-- The path of a page, followed by its query where it has one.
abbrev shown_route : String → String → String
shown_route path query = elim (query == "") [ true ↦ path | false ↦ path ++ "?" ++ query ]

-- The route is the one that was reported last.
abbrev is_shown_again : String → Option String → Bool
is_shown_again route previous = elim previous [ none ↦ false | some before ↦ route == before ]

-- A page view that nothing precedes is a load, any other a change of the route.
abbrev kind_after : Option String → String
kind_after previous = elim previous [ none ↦ "load" | some before ↦ "route" ]

abbrev pub view_of : Render → String → View
view_of r path = record { name = path; route = shown_route path r.query; window = r.window }

-- The renders with a path, but for one whose route is that of the one before.
unfoldable pub distinct_views : Option String → List Render → List View
distinct_views previous [] = []
distinct_views previous (r ∷ rest) = elim (truthy r.pathname) [
  | none ↦ distinct_views previous rest
  | some path ↦
      if is_shown_again (shown_route path r.query) previous
      then distinct_views previous rest
      else view_of r path ∷ distinct_views (some (shown_route path r.query)) rest
]

full_route_lem : (path query : String) → full_route path query ≡ shown_route path query
full_route_lem path query = elim (Bool-cases (query == "")) [
  | inl bare ↦ rw (bare, shown_route) refl
  | inr asked ↦ rw (asked, shown_route) refl
]

is_previous_lem :
    (route : String) (previous : Option String)
    → is_previous route previous ≡ is_shown_again route previous
is_previous_lem route none = refl
is_previous_lem route (some before) = ground (arith, eq_iff before route, eq_iff route before)

navigation_of_lem : (previous : Option String) → navigation_of previous ≡ kind_after previous
navigation_of_lem none = refl
navigation_of_lem (some before) = refl

is_previous-shown :
    (path : String) (r : Render) (previous : Option String)
    → is_previous (full_route path r.query) previous
      ≡ is_shown_again (shown_route path r.query) previous
is_previous-shown path r previous = rw (full_route_lem path r.query, is_previous_lem) refl

distinct_views-none :
    (previous : Option String) (r : Render) (rest : List Render)
    → truthy r.pathname ≡ none
    → distinct_views previous (r ∷ rest) ≡ distinct_views previous rest
unfolding distinct_views
distinct_views-none previous r rest h = simp (h, distinct_views) refl

distinct_views_again :
    (previous : Option String) (r : Render) (rest : List Render) (path : String)
    → truthy r.pathname ≡ some path
    → is_shown_again (shown_route path r.query) previous ≡ true
    → distinct_views previous (r ∷ rest) ≡ distinct_views previous rest
unfolding distinct_views
distinct_views_again previous r rest path h y = simp (h, y, distinct_views) refl

distinct_views_new :
    (previous : Option String) (r : Render) (rest : List Render) (path : String)
    → truthy r.pathname ≡ some path
    → is_shown_again (shown_route path r.query) previous ≡ false
    → distinct_views previous (r ∷ rest)
      ≡ view_of r path ∷ distinct_views (some (shown_route path r.query)) rest
unfolding distinct_views
distinct_views_new previous r rest path h n = simp (h, n, distinct_views) refl

module _ {S : Type 0} (clock : Clock) where
  -- A page view for each, which comes from the route of the one before; only the first of all
  -- is a load.
  unfoldable pub send_all : Option String → List View → Facade S → Facade S
  send_all previous [] f = f
  send_all previous (v ∷ views) f =
      send_all (some v.route) views
        (Facade.page clock (some v.name) (page_properties v.window empty)
          (record {
            navigation_type = some (kind_after previous);
            to_route = some v.route;
            previous_route = previous;
          })
          f).1

  abbrev pub settled_at :
      Facade S → Option (Exec S (Unit {0})) → String → Option Window → Option String → Viewer S
  settled_at f api path window previous = record {
    client = record {
      iforevents = f;
      api = api;
      ready = ok tt;
      identifying = ok tt;
      last_path = path;
      window = window;
    };
    previous = previous;
  }

  abbrev pub at_window : Option Window → Viewer S → Viewer S
  at_window w v = record v { client = record v.client { window = w } }

  module _ (text : Value → String) where
    -- The viewer after the effects of renders.
    unfoldable pub render_all : List Render → Viewer S → Viewer S
    unfolding page_views
    render_all [] v = v
    render_all (r ∷ rest) v =
        render_all rest (page_views clock text r.pathname r.query (at_window r.window v)).1

    page_views-none :
        (pathname : Option String) (query : String) (v : Viewer S)
        → truthy pathname ≡ none
        → (page_views clock text pathname query v).1 ≡ v
    unfolding page_views
    page_views-none pathname query v h = rw (h, page_views) refl

    page_views_again :
        (pathname : Option String) (query : String) (v : Viewer S) (path : String)
        → truthy pathname ≡ some path
        → is_previous (full_route path query) v.previous ≡ true
        → (page_views clock text pathname query v).1 ≡ v
    unfolding page_views
    page_views_again pathname query v path h y = rw (h, y, page_views) refl

    page_views_new :
        (pathname : Option String) (query : String) (v : Viewer S) (path : String)
        → truthy pathname ≡ some path
        → is_previous (full_route path query) v.previous ≡ false
        → (page_views clock text pathname query v).1
          ≡ (send clock text (some path) (some empty) (some (full_route path query)) v).1
    unfolding page_views
    page_views_new pathname query v path h n = rw (h, n, page_views) refl

    module _ (api : Option (Exec S (Unit {0}))) (path : String) where
      send_page :
          (f : Facade S) (r : Render) (previous : Option String) (name : String)
          → (send clock text
              (some name)
              (some empty)
              (some (full_route name r.query))
              (settled_at f api path r.window previous)).1
            ≡ settled_at
                (Facade.page clock
                  (some name)
                  (page_properties r.window empty)
                  (record {
                    navigation_type = some (kind_after previous);
                    to_route = some (shown_route name r.query);
                    previous_route = previous;
                  })
                  f).1
                api
                path
                r.window
                (some (shown_route name r.query))
      unfolding page get
      send_page f r previous name =
          rw (full_route_lem name r.query, navigation_of_lem previous) refl

      -- From a client whose `ready` has resolved, and that waits for no `identify`, the facade is,
      -- after the effects of any renders, the one after a page view for each of them in order that
      -- has a path and whose route, with the query, is not that of the view before; each has the
      -- route before it as its previous route, and is a load if there is none.
      pub render_all_sends :
          (renders : List Render) (f : Facade S) (window : Option Window) (previous : Option String)
          → (render_all renders (settled_at f api path window previous)).client.iforevents
            ≡ send_all previous (distinct_views previous renders) f
      unfolding render_all distinct_views send_all
      render_all_sends [] f window previous = refl
      render_all_sends (r ∷ rest) f window previous = elim (Option-cases (truthy r.pathname)) [
        | inl h ↦
            ap (λ (v : Viewer S). (render_all rest v).client.iforevents)
              (page_views-none r.pathname r.query (settled_at f api path r.window previous) h)
            ∙ render_all_sends rest f r.window previous
            ∙ ap (λ l. send_all previous l f) (sym (distinct_views-none previous r rest h))
        | inr (name, h) ↦ elim (Bool-cases (is_shown_again (shown_route name r.query) previous)) [
          | inl y ↦
              ap (λ (v : Viewer S). (render_all rest v).client.iforevents)
                (page_views_again r.pathname r.query (settled_at f api path r.window previous) name
                  h (is_previous-shown name r previous ∙ y))
              ∙ render_all_sends rest f r.window previous
              ∙ ap (λ l. send_all previous l f)
                  (sym (distinct_views_again previous r rest name h y))
          | inr n ↦
              ap (λ (v : Viewer S). (render_all rest v).client.iforevents)
                (page_views_new r.pathname r.query (settled_at f api path r.window previous) name h
                    (is_previous-shown name r previous ∙ n)
                  ∙ send_page f r previous name)
              ∙ render_all_sends rest _ r.window (some (shown_route name r.query))
              ∙ ap (λ l. send_all previous l f) (sym (distinct_views_new previous r rest name h n))
        ]
      ]
