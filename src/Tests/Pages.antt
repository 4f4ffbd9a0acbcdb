-- ===== src/Tests/Pages.antt =====
-- The clients of pages and apps over one plain integration.
use iforevents_sdks.Prelude.{String, ◌≡◌, refl, true, false, Option, none, some, List, [], ◌∷◌}
use iforevents_sdks.Js.Value.{Value, empty, string}
use iforevents_sdks.Exec.{ok, pure}
use iforevents_sdks.Types.{no_hooks, IntegrationResult}
use iforevents_sdks.Api.{Config}
use iforevents_sdks.Api.Construct.{RawConfig}
use iforevents_sdks.Integration.{base_integration, safe_execute}
use iforevents_sdks.Facade.{Member, Facade, Clock, PageOptions, new_facade}
use iforevents_sdks.Facade
use iforevents_sdks.Tests.Facade.{clock}
use iforevents_sdks.Browser.{Window, Browser, named, no_options}
use iforevents_sdks.Browser.Agent.{parse_user_agent}
use iforevents_sdks.Browser.Agent.Search.{AllPass}
use iforevents_sdks.Browser.Agent.Versions.{Reads, parse_user_agent-Reads}
use iforevents_sdks.Browser.Agent.{digit_or_dot}
use iforevents_sdks.Browser.Create.{Chosen, BrowserOptions, start}
use iforevents_sdks.Browser.Routes.{Change, views, browse, opened, browse_tracks}
use iforevents_sdks.Browser.Static.{QueuedCall, track, page, identify, flush, unknown, init}
use iforevents_sdks.Browser.Static.Replay.{push_all, loading, push_all-init}
use iforevents_sdks.ReactNative.Navigation.{settled_at as at_screen}
use iforevents_sdks.PageViews.Changes.{
  Render, render_all, send_all, distinct_views, settled_at, render_all_sends,
}
use iforevents_sdks.NextServer.{
  Process, asked, reloaded, was_reset, after, IsConsistent, idle, after-IsConsistent,
}

abbrev agent : String
agent = "Mozilla/5.0 (iPhone; CPU iPhone OS 17_1_2 like Mac OS X) AppleWebKit/605.1.15"

parse_user_agent-Reads_example :
    Reads agent ((parse_user_agent agent).os, (parse_user_agent agent).os_version)
    × AllPass digit_or_dot (parse_user_agent agent).os_version
parse_user_agent-Reads_example = parse_user_agent-Reads agent

abbrev plain : Member (Unit {0})
plain = record { behaviour = base_integration no_hooks "Plain"; state = tt }

abbrev raw : RawConfig
raw = record {
  project_key = string "pk";
  secret = false;
  fetch = true;
  base_url = none;
  batch_size = none;
  flush_interval = none;
  timeout = none;
  max_retries = none;
  retry_delay = none;
  requeue_failed_events = none;
  debug = none;
  throw_on_error = none;
  persist_queue = none;
  max_queue_size = none;
  user_agent = none;
}

abbrev options : BrowserOptions (Unit {0})
options = record {
  integrations = plain ∷ [];
  auto_track = true;
  app_version = "1.0";
  context = empty;
  disable_api = true;
  has_storage = false;
  config = raw;
}

abbrev text : Value → String
text v = "?"

abbrev at_path : String → Window
at_path path = record {
  href = path;
  pathname = path;
  referrer = "";
  title = "Shop";
  hidden = false;
}

abbrev changes : List Change
changes = ("pushState", at_path "/cart") ∷ ("popstate", at_path "/") ∷ []

abbrev new_api : Chosen → Config → Member (Unit {0})
new_api chosen config = plain

abbrev results : List IntegrationResult
results = record { integration = "Plain"; success = true; error = none; timestamp = "done" } ∷ []

browse_tracks_example :
    (browse clock text changes
      (start clock text none new_api (pure tt) options (some (at_path "/")) none)).iforevents
    ≡ views clock "/"
        (("load", at_path "/") ∷ changes)
        (opened clock text none new_api (pure tt) options (at_path "/") none).1
unfolding Facade.init Facade.fan_out Facade.run_all safe_execute Facade.new_facade
browse_tracks_example =
    browse_tracks clock text none new_api (pure tt) options (at_path "/") none results changes refl
      refl

abbrev initialised : Facade (Unit {0})
initialised = (Facade.init clock [] none (new_facade (plain ∷ []) (λ n. none))).1

abbrev client : Browser (Unit {0})
client = record {
  iforevents = initialised;
  api = none;
  ready = ok tt;
  identifying = ok tt;
  last_path = "/";
  window = some (at_path "/");
}

abbrev calls : List QueuedCall
calls =
    identify "ana" none
    ∷ track "Opened" (some empty)
    ∷ unknown "alias"
    ∷ page (named "Home") none no_options
    ∷ flush
    ∷ []

push_all-init_example :
    push_all clock text calls
      (init clock text (λ key. ok client) "pk" (loading clock text (unknown "x" ∷ []) 0)).1
    ≡ (init clock text
        (λ key. ok client)
        "pk"
        (push_all clock text calls (loading clock text (unknown "x" ∷ []) 0))).1
push_all-init_example =
    push_all-init clock text (λ key. ok client) "pk" client (unknown "x" ∷ []) calls 0 refl refl

abbrev routes : List (String × Option String)
routes =
    ("load", some "Home")
    ∷ ("navigate", none)
    ∷ ("navigate", some "Home")
    ∷ ("navigate", some "Cart")
    ∷ []

abbrev renders : List Render
renders =
    record { pathname = some "/"; query = ""; window = some (at_path "/") }
    ∷ record { pathname = some "/"; query = "tab=2"; window = some (at_path "/") }
    ∷ record { pathname = none; query = ""; window = some (at_path "/") }
    ∷ []

render_all_sends_example :
    (render_all clock text renders
      (settled_at clock initialised none "/" none none)).client.iforevents
    ≡ send_all clock none (distinct_views none renders) initialised
render_all_sends_example = render_all_sends clock text none "/" renders initialised none none

abbrev fresh : Process
fresh = record { singleton = none; global = none; created = 0; shut_down = [] }

after-IsConsistent_example :
    IsConsistent (after (asked ∷ reloaded ∷ asked ∷ was_reset ∷ asked ∷ []) fresh)
after-IsConsistent_example =
    after-IsConsistent (asked ∷ reloaded ∷ asked ∷ was_reset ∷ asked ∷ []) fresh
      (idle refl refl refl)
