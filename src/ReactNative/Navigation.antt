-- ===== src/ReactNative/Navigation.antt =====
-- js/packages/react-native/src/index.ts: `trackNavigation`, and the screens that it reports.
use iforevents_sdks.Prelude.{
  String, Bool, false, Option, none, some, List, [], ◌∷◌, ◌==◌, if◌then◌else◌,
}
use iforevents_sdks.Js.Value.{empty}
use iforevents_sdks.Exec.{ok, Exec}
use iforevents_sdks.Api.{truthy}
use iforevents_sdks.Facade.{Facade, Clock}
use iforevents_sdks.Facade
use iforevents_sdks.ReactNative.{Native, screen}

-- The client that the listeners call, and the name that they remember.
pub record Navigation (S : Type 0) : Type 0 where
  pub client : Native S
  pub previous : Option String

abbrev pub is_previous : String → Option String → Bool
is_previous name none = false
is_previous name (some before) = name == before

-- The screens to report: the routes that have a name, but for one that follows itself.
unfoldable pub screens : Option String → List (String × Option String) → List (String × String)
screens previous [] = []
screens previous ((navigation_type, route) ∷ rest) = elim (truthy route) [
  | none ↦ screens previous rest
  | some name ↦
      if is_previous name previous
      then screens previous rest
      else (navigation_type, name) ∷ screens (some name) rest
]

module _ {S : Type 0} (clock : Clock) where
  abbrev pub report : String → String → Exec (Navigation S) (Unit {0})
  report navigation_type name n = (
    ok tt,
    record n {
      client =
          (screen clock name (some empty)
            (some (record {
              navigation_type = some navigation_type;
              previous_route = n.previous;
              to_route = some name;
            }))
            n.client).1;
      previous = some name;
    },
  )

  -- `fire`, with the name of the current route, if there is one.
  unfoldable pub fire : String → Option String → Exec (Navigation S) (Unit {0})
  fire navigation_type route n = elim (truthy route) [
    | none ↦ (ok tt, n)
    | some name ↦ if is_previous name n.previous then (ok tt, n) else report navigation_type name n
  ]

  -- The state of the navigation changes: what the listener is called for, and the route then.
  unfoldable pub travel : List (String × Option String) → Navigation S → Navigation S
  unfolding fire
  travel [] n = n
  travel ((navigation_type, route) ∷ rest) n = travel rest (fire navigation_type route n).1

  -- A view of each screen, which comes from the one before.
  unfoldable pub visits : Option String → List (String × String) → Facade S → Facade S
  visits previous [] f = f
  visits previous ((navigation_type, name) ∷ rest) f =
      visits (some name) rest
        (Facade.page clock (some name) empty
          (record {
            navigation_type = some navigation_type;
            to_route = some name;
            previous_route = previous;
          })
          f).1

  abbrev pub settled_at : Facade S → Bool → Option String → Navigation S
  settled_at f has_api previous = record {
    client = record { iforevents = f; has_api = has_api; ready = ok tt; identifying = ok tt };
    previous = previous;
  }
