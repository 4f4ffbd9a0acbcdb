-- ===== src/Vendors.antt =====
-- The adapters of js/packages/{amplitude,mixpanel,posthog,segment,ga4}/src, which hand the calls of
-- the facade to a vendor's client, and what they share: `_vendor.ts`, the state of an adapter, and
-- the properties of a page view. The clients are the vendors': a call of one is logged, and throws
-- or rejects as the parameter `Vendor` says.
pub mod AmplitudeBrowser
pub mod AmplitudeNode
pub mod MixpanelBrowser
pub mod MixpanelNode
pub mod PostHogBrowser
pub mod PostHogNode
pub mod SegmentBrowser
pub mod SegmentNode
pub mod Ga4
pub mod Scalars
pub mod People
pub mod Settling
use iforevents_sdks.Prelude.{
  ℕ, String, Bool, true, false, Option, none, some, List, [], ◌∷◌, ◌++◌, length, ◌==◌,
  if◌then◌else◌,
}
use Prim.Native.String.{◌++◌ as str_append}
use iforevents_sdks.Js.Value.{
  Value, undefined, null, boolean, number, string, array, object, instance_of, Properties, empty,
  entry, put, assign,
}
use iforevents_sdks.Errors.{Error, other}
use iforevents_sdks.Exec.{Outcome, ok, thrown, Exec, ◌>>=◌, ◌>>◌, pure, throw, modify}
use iforevents_sdks.Types.{TrackEvent, PageEvent, page_view}

-- A call of a client: the method, and the arguments.
pub record Call : Type 0 where
  pub method : String
  pub arguments : List Value

-- What an adapter meets outside: whether the vendor's package can be imported, what the n-th call
-- of the client throws or rejects with (each settles in the end), `JSON.stringify`, the
-- milliseconds since 1970 of a date, and whether the client has the optional methods.
pub record Vendor : Type 0 where
  pub installed : Bool
  pub answers : ℕ → Option Error
  pub stringify : Value → String
  pub milliseconds : String → ℕ
  pub has_flush : Bool
  pub has_shutdown : Bool

-- The fields of an adapter: whether `this.client` is there, and the person that the server-side
-- ones remember. `calls` is the log of the client.
pub record Adapter : Type 0 where
  pub client : Bool
  pub person : Option String
  pub calls : List Call

-- The instance as its constructor leaves it, with the client that it was given or without one.
abbrev pub new_adapter : Bool → Adapter
new_adapter given = record { client = given; person = none; calls = [] }

abbrev pub text_or_undefined : Option String → Value
text_or_undefined none = undefined
text_or_undefined (some text) = string text

-- `event.name || "page_view"`
abbrev pub name_or_page_view : String → String
name_or_page_view name = if name == "" then "page_view" else name

-- `{ ...event.properties, navigation_type: ..., to_route: ..., previous_route: ... }`
unfoldable pub page_properties : Properties → PageEvent → Properties
page_properties before event = assign (assign empty before) (
    entry "navigation_type" (text_or_undefined event.navigation_type) (
      entry "to_route" (text_or_undefined event.to_route)
        (entry "previous_route" (text_or_undefined event.previous_route) empty)))

-- The event that a server-side `page` hands to `track`.
unfoldable pub page_as_track : PageEvent → TrackEvent
unfolding page_properties
page_as_track event = record {
  name = name_or_page_view event.name;
  kind = page_view;
  properties = page_properties event.properties event;
  timestamp = event.timestamp;
}

-- What `scalarize` makes of one value; nothing of null and undefined.
unfoldable pub scalar_of : (Value → String) → Value → Option Value
scalar_of stringify undefined = none
scalar_of stringify null = none
scalar_of stringify (boolean b) = some (boolean b)
scalar_of stringify (number n) = some (number n)
scalar_of stringify (string s) = some (string s)
scalar_of stringify v = some (string (stringify v))

abbrev pub put_value : String → Option Value → Properties → Properties
put_value key none p = p
put_value key (some v) p = put key v p

-- The loop of `scalarize`, over the object built so far.
unfoldable pub scalarize_from : (Value → String) → Properties → Properties → Properties
scalarize_from stringify empty out = out
scalarize_from stringify (entry k v p) out =
    scalarize_from stringify p (put_value k (scalar_of stringify v) out)

-- `scalarize`
unfoldable pub scalarize : (Value → String) → Properties → Properties
unfolding scalarize_from scalar_of
scalarize stringify p = scalarize_from stringify p empty

abbrev pub settled : Option Error → Outcome (Unit {0})
settled none = ok tt
settled (some e) = thrown e

module _ (vendor : Vendor) where
  -- A call of the client.
  unfoldable pub call : String → List Value → Exec Adapter (Unit {0})
  call method arguments s = (
    settled (vendor.answers (length s.calls)),
    record s { calls = s.calls ++ record { method = method; arguments = arguments } ∷ [] },
  )

  -- `loadVendor`
  unfoldable pub load_vendor : String → Exec Adapter (Unit {0})
  load_vendor specifier =
      if vendor.installed
      then pure tt
      else throw (
          other (
            str_append "[iforevents] "
              (str_append specifier (str_append " is not installed; run: npm install " specifier))))

-- `this.client?.method(...)`
unfoldable pub with_client : Exec Adapter (Unit {0}) → Exec Adapter (Unit {0})
with_client m s = elim s.client [ true ↦ m s | false ↦ (ok tt, s) ]

-- The rest of an `init`, where there is no client yet: it needs a key, and loads the package.
unfoldable pub without_client :
    Option String → String → (String → Exec Adapter (Unit {0})) → Exec Adapter (Unit {0})
without_client key message load s = elim s.client [
  | true ↦ (ok tt, s)
  | false ↦ elim key [
    | none ↦ (thrown (other message), s)
    | some k ↦ if k == "" then (thrown (other message), s) else load k s
  ]
]

-- `this.client = ...`
abbrev pub set_client : Exec Adapter (Unit {0})
set_client = modify λ s. record s { client = true }

abbrev pub set_person : Option String → Exec Adapter (Unit {0})
set_person person = modify λ s. record s { person = person }
