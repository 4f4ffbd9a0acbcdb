-- ===== src/Api.antt =====
-- js/packages/core/src/api-integration.ts: the configuration and the state of
-- IForeventsAPIIntegration, and what stands outside it.
pub mod Construct
pub mod Request
pub mod Queue
pub mod Calls
pub mod Interleaved
use iforevents_sdks.Prelude.{
  ℕ, String, Bool, true, false, Option, none, some, List, [], ◌∷◌, ◌++◌, length, ◌==◌,
  if◌then◌else◌,
}
use iforevents_sdks.Js.Number.{Number}
use iforevents_sdks.Js.Value.{Value, Properties, empty, entry, string, object}
use iforevents_sdks.Js.Runtime.{Runtime}
use iforevents_sdks.Errors.{Error, ApiError}
use iforevents_sdks.Exec.{Exec, ok, thrown}
use iforevents_sdks.Types.{EventType, event_type, IntegrationHooks}
use iforevents_sdks.Storage.{Storage}
use iforevents_sdks.Ids.{Bytes}

-- `this.config`, with every default filled in. The code takes any number for `maxRetries`: a finite
-- one acts as its ceiling, a negative one as 0, so these are a natural number here; with NaN or
-- Infinity, which are left out, the loop of `request` never gives up.
pub record Config : Type 0 where
  pub project_key : String
  pub base_url : String
  pub batch_size : Number
  pub flush_interval : Number
  pub timeout : Number
  pub max_retries : ℕ
  pub retry_delay : ℕ
  pub requeue_failed_events : Bool
  pub debug : Bool
  pub throw_on_error : Bool
  pub persist_queue : Bool
  pub max_queue_size : ℕ
  pub user_agent : Option String

pub record QueuedEvent : Type 0 where
  pub name : String
  pub kind : EventType
  pub properties : Properties
  pub created_at : String
  pub message_id : String

abbrev pub event_object : QueuedEvent → Properties
event_object e = entry "name" (string e.name) (
    entry "type" (string (event_type e.kind)) (
      entry "properties" (object e.properties) (
        entry "created_at" (string e.created_at) (entry "message_id" (string e.message_id) empty))))

pub record QueueStatus : Type 0 where
  pub queued_events : ℕ
  pub batch_size : Number
  pub is_initialized : Bool
  pub is_identified : Bool
  pub user_id : Option String
  pub anonymous_id : Option String

-- A POST as it leaves; the body is kept from before `JSON.stringify`.
pub record Post : Type 0 where
  pub url : String
  pub headers : List (String × String)
  pub body : Value
  pub keepalive : Bool

-- What `fetch` and the reading of its body come to: a rejection (network, abort by the timeout), a
-- status with the text of the body and the header `retry-after`, or nothing. The latter is a body
-- that stalls, since the timeout is cleared before `res.text()`, or a `fetch` that stalls where
-- there is no `AbortController`.
pub data Answer : Type 0 where
  failed : (message : String) → Answer
  stalled : Answer
  response : (status : ℕ) (text : String) (retry_after : Option String) → Answer

-- Everything outside the class that it reads. The n-th fetch is answered by `answers n`; the n-th
-- request is built at the time `clock n` with what the context provider then gives, `none` for a
-- rejection; the n-th identifier is made of the bytes `random n`.
pub record Env (S : Type 0) : Type 0 where
  pub config : Config
  pub hooks : IntegrationHooks
  pub runtime : Runtime
  pub storage : Storage S
  pub answers : ℕ → Answer
  pub clock : ℕ → String
  pub event_context : ℕ → Option Value
  pub random : ℕ → Bytes

-- The fields of the class, and what has happened outside: the store, the requests sent and the
-- delays slept, oldest first, the identifiers and envelopes made, and the callbacks called.
pub record State (S : Type 0) : Type 0 where
  pub queue : List Value
  pub timer : Bool
  pub user_id : Option String
  pub anon_id : Option String
  pub initialized : Bool
  pub identified : Bool
  pub quota_exceeded : Bool
  pub store : S
  pub sent : List Post
  pub slept : List Number
  pub drawn : ℕ
  pub built : ℕ
  pub on_error : List ApiError
  pub on_quota_exceeded : List ApiError

abbrev pub user_key : String
user_key = "iforevents_user_id"

abbrev pub identified_key : String
identified_key = "iforevents_user_identified"

abbrev pub anonymous_key : String
anonymous_key = "iforevents_anonymous_id"

abbrev pub queue_key : String
queue_key = "iforevents_queue"

abbrev pub max_batch : ℕ
max_batch = 500

-- The instance as the constructor leaves it, over a store.
unfoldable pub new_state : {S : Type 0} → S → State S
new_state s = record {
  queue = [];
  timer = false;
  user_id = none;
  anon_id = none;
  initialized = false;
  identified = false;
  quota_exceeded = false;
  store = s;
  sent = [];
  slept = [];
  drawn = 0;
  built = 0;
  on_error = [];
  on_quota_exceeded = [];
}

-- `getQueueStatus`
unfoldable pub get_queue_status : {S : Type 0} → Env S → State S → QueueStatus
get_queue_status env s = record {
  queued_events = length s.queue;
  batch_size = env.config.batch_size;
  is_initialized = s.initialized;
  is_identified = s.identified;
  user_id = s.user_id;
  anonymous_id = s.anon_id;
}

-- `x ? x : ...` of a text or null: the empty text counts as missing.
abbrev pub truthy : Option String → Option String
truthy none = none
truthy (some x) = if x == "" then none else some x

-- A hook that throws rejects the call; `super.method` comes first.
abbrev pub run_hook : {S : Type 0} → Option Error → Exec S (Unit {0})
run_hook none s = (ok tt, s)
run_hook (some e) s = (thrown e, s)
