-- ===== src/Api/Construct.antt =====
-- The constructor: which configurations it refuses, and the values that it fills in.
pub mod Laws
use iforevents_sdks.Prelude.{
  ℕ, String, Bool, true, false, ◌&&◌, Option, none, some, ◌==◌, if◌then◌else◌,
}
use Prim.Native.Char.{code}
use iforevents_sdks.Prelude.{eqb}
use iforevents_sdks.Js.Number.{Number, of_ℕ, floor, min_number, max_number}
use iforevents_sdks.Js.Value.{Value, string}
use iforevents_sdks.Js.Runtime.{is_blank}
use iforevents_sdks.Errors.{Error, other}
use iforevents_sdks.Exec.{Outcome, ok, thrown}
use iforevents_sdks.Api.{Config, max_batch}

-- `IForeventsAPIConfig` as it is passed: `secret` is whether it has a key `projectSecret`, and
-- `fetch` whether it or the global object has a function of that name.
pub record RawConfig : Type 0 where
  pub project_key : Value
  pub secret : Bool
  pub fetch : Bool
  pub base_url : Option String
  pub batch_size : Option Number
  pub flush_interval : Option Number
  pub timeout : Option Number
  pub max_retries : Option ℕ
  pub retry_delay : Option ℕ
  pub requeue_failed_events : Option Bool
  pub debug : Option Bool
  pub throw_on_error : Option Bool
  pub persist_queue : Option Bool
  pub max_queue_size : Option ℕ
  pub user_agent : Option String

-- `a ?? b`
abbrev pub default {ℓ} : {A : Type ℓ} → Option A → A → A
default none b = b
default (some a) b = a

abbrev pub is_empty_text : String → Bool
is_empty_text String.[] = true
is_empty_text (String.◌∷◌ c s) = false

-- `text.replace(/\/+$/, "")`
unfoldable pub strip_slashes : String → String
strip_slashes String.[] = ""
strip_slashes (String.◌∷◌ c s) =
    let rest = strip_slashes s in
    if is_empty_text rest && eqb (code c) b'/' then "" else String.◌∷◌ c rest

-- `Math.max(1, Math.min(MAX_BATCH, Math.floor(batchSize)))`
unfoldable pub clamp_batch : Number → Number
unfolding floor
clamp_batch n = max_number 1 (min_number max_batch (floor n))

unfoldable pub resolve : RawConfig → String → Config
resolve raw key = record {
  project_key = key;
  base_url = strip_slashes (default raw.base_url "https://api.iforevents.com");
  batch_size = clamp_batch (default raw.batch_size (of_ℕ 20));
  flush_interval = default raw.flush_interval (of_ℕ 10000);
  timeout = default raw.timeout (of_ℕ 10000);
  max_retries = default raw.max_retries 3;
  retry_delay = default raw.retry_delay 1000;
  requeue_failed_events = default raw.requeue_failed_events true;
  debug = default raw.debug false;
  throw_on_error = default raw.throw_on_error false;
  persist_queue = default raw.persist_queue false;
  max_queue_size = default raw.max_queue_size 1000;
  user_agent = raw.user_agent;
}

unfoldable pub checked : RawConfig → String → Outcome Config
checked raw key =
    if is_blank key
    then thrown (other "[iforevents] IForeventsAPIIntegration needs a projectKey")
    else if raw.secret
    then thrown
        (other "[iforevents] the project secret never belongs in an SDK; pass the project key only")
    else if raw.fetch
    then ok (resolve raw key)
    else thrown (other "[iforevents] no fetch available; pass config.fetch")

abbrev pub of_key : RawConfig → Value → Outcome Config
of_key raw (string key) = checked raw key
of_key raw v = thrown (other "[iforevents] IForeventsAPIIntegration needs a projectKey")

-- `new IForeventsAPIIntegration(config)`
unfoldable pub construct : RawConfig → Outcome Config
construct raw = of_key raw raw.project_key
