-- ===== src/Context/Platforms/Server.antt =====
-- The contexts of core and of the node package.
use iforevents_sdks.Prelude.{◌≡◌, refl, String, true, Option, none, some}
use iforevents_sdks.Js.Value.{string, object, Properties, empty, entry, put, has, get}
use iforevents_sdks.Api.{truthy}
use iforevents_sdks.Context.{put_text, default_event_context, library_of}
use iforevents_sdks.Context.Shapes.{shape_at, fits, event_context_fields}
use iforevents_sdks.Node.{Host, node_event_context, put_intl}
use iforevents_sdks.Node
use iforevents_sdks.Context.Platforms.Labels.{SentBy, put-SentBy, put_text-SentBy}

-- The fields of an application from a manifest, each where it is not empty.
app-fits :
    (name version : Option String)
    → fits
        (object (put_text "version" version (put_text "name" name empty)))
        (shape_at "app" event_context_fields)
      ≡ true
unfolding put fits
app-fits none none = refl
app-fits none (some v) = refl
app-fits (some n) none = refl
app-fits (some n) (some v) = refl

put_app-SentBy :
    (name version : Option String) (p : Properties)
    → SentBy "@iforevents/node" p
    → SentBy "@iforevents/node" (Node.put_app name version p)
put_app-SentBy none none p h = h
put_app-SentBy none (some v) p h =
    put-SentBy "@iforevents/node" "app" _ p refl (app-fits none (some v)) h
put_app-SentBy (some n) version p h =
    put-SentBy "@iforevents/node" "app" _ p refl (app-fits (some n) version) h

pub put_intl-SentBy :
    (sdk : String) (intl : Option (Option String × Option String)) (p : Properties)
    → SentBy sdk p
    → SentBy sdk (put_intl intl p)
put_intl-SentBy sdk none p h = h
put_intl-SentBy sdk (some (locale, timezone)) p h =
    put_text-SentBy sdk "timezone" (truthy timezone) _ refl refl
      (put_text-SentBy sdk "locale" (truthy locale) p refl refl h)

node_base :
    (host : Host)
    → SentBy "@iforevents/node" (
        entry "library" (library_of "@iforevents/node" "0.1.0") (
          entry "os"
            (library_of host.platform host.release)
            (entry "device" (object (entry "type" (string "server") empty)) empty)))
unfolding fits has get
node_base host = (refl, refl)

pub node-SentBy : (host : Host) → SentBy "@iforevents/node" (node_event_context host)
unfolding node_event_context
node-SentBy host =
    put_app-SentBy (truthy host.npm_name) (truthy host.npm_version) _
      (put_intl-SentBy "@iforevents/node" host.intl _ (node_base host))

pub default-SentBy : SentBy "@iforevents/core" default_event_context
unfolding default_event_context fits has get
default-SentBy = (refl, refl)
