-- ===== src/Tests/Node.antt =====
-- Contexts and a server's client, on concrete hosts.
use iforevents_sdks.Prelude.{◌≡◌, refl, true, false, none, some, [], ◌∷◌, ◌==◌, if◌then◌else◌}
use iforevents_sdks.Js.Number.{of_ℕ}
use iforevents_sdks.Js.Value.{string, empty, entry}
use iforevents_sdks.Types.{no_hooks}
use iforevents_sdks.Storage.{Entries}
use iforevents_sdks.Api.{Config, State, new_state}
use iforevents_sdks.Api.Construct.{RawConfig, resolve}
use iforevents_sdks.Context.{SearchParams, default_event_context}
use iforevents_sdks.Context.Shapes.{all_fit, fits, event_context_fields}
use iforevents_sdks.Context.Platforms.{contexts-EventContext}
use iforevents_sdks.Context.Platforms.Labels.{SentBy}
use iforevents_sdks.Browser.Context.{Navigator, browser_event_context}
use iforevents_sdks.ReactNative.Context.{Device, react_native_event_context}
use iforevents_sdks.Integration.{base_integration}
use iforevents_sdks.Facade.{Member, Facade, Clock}
use iforevents_sdks.Facade.Lifecycle.{api_member}
use iforevents_sdks.Node.{Host, node_event_context, node_config, NodeOptions}
use iforevents_sdks.Tests.{recovering, env_with, running, kept}

-- ?utm_source=news&utm_term=
abbrev params : SearchParams
params key =
    if key == "utm_source" then some "news" else if key == "utm_term" then some "" else none

abbrev server : Host
server = record {
  os_type = "Linux";
  arch = "x64";
  release = "6.1";
  platform = "linux";
  hostname = "web-1";
  node_version = "22.0.0";
  npm_name = some "shop";
  npm_version = none;
  intl = none;
}

abbrev server_clock : Clock
server_clock = record { now = λ n. "t"; finished = λ n i. "done" }

abbrev vendor_member : Member (State Entries)
vendor_member = record { behaviour = base_integration no_hooks "Vendor"; state = running }

abbrev idle : Facade (State Entries)
idle = record {
  integrations = api_member kept running ∷ [];
  traits = empty;
  initialized = false;
  context_provider = λ n. none;
  contexts = 0;
  fan_outs = 0;
  observed = [];
}

abbrev server_config : RawConfig
server_config = record {
  project_key = string "pk";
  secret = false;
  fetch = true;
  base_url = none;
  batch_size = some (of_ℕ 10);
  flush_interval = some (of_ℕ 5000);
  timeout = none;
  max_retries = none;
  retry_delay = none;
  requeue_failed_events = none;
  debug = none;
  throw_on_error = none;
  persist_queue = none;
  max_queue_size = none;
  user_agent = none;
}

abbrev server_api : Config → Member (State Entries)
server_api config = api_member (env_with config recovering) (new_state [])

abbrev server_options : NodeOptions (State Entries)
server_options = record {
  integrations = vendor_member ∷ [];
  context = empty;
  flush_on_exit = true;
  disable_api = false;
}

abbrev accepted_config : Config
accepted_config = resolve (node_config server server_config) "pk"

abbrev visitor : Navigator
visitor = record {
  user_agent = some "Mozilla/5.0 (Windows NT 10.0)";
  language = some "es-CO";
  screen = none;
  time_zone = none;
}

abbrev phone : Device
phone = record {
  os = "ios";
  version = "17.2";
  device_info = some (record {
    brand = some "Apple";
    model = some "iPhone";
    system_version = some "17.2";
    version = some "1.0";
    build_number = none;
    application_name = some "Shop";
  });
  intl = none;
}

contexts-EventContext_example :
    SentBy "@iforevents/core" default_event_context
    × SentBy "@iforevents/node" (node_event_context server)
    × SentBy "@iforevents/browser"
        (browser_event_context (λ t. some params) (some visitor) (some "?utm_source=news") "1.0")
    × SentBy "@iforevents/react-native" (react_native_event_context phone)
contexts-EventContext_example =
    contexts-EventContext server (λ t. some params) (some visitor) (some "?utm_source=news") "1.0"
      phone

-- A text is no device of an event context.
not_a_device : all_fit (entry "device" (string "web") empty) event_context_fields ≡ false
unfolding fits
not_a_device = refl
