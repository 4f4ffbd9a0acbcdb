-- ===== src/Tests.antt =====
-- A concrete world to evaluate the model in: the runtime, the network, the stores and the states
-- of the tests.
pub mod Core
pub mod Sending
pub mod Visitor
pub mod Facade
pub mod Interleaving
pub mod Node
pub mod Vendors
pub mod Pages
pub mod Provider
pub mod Turns
pub mod Chain
use iforevents_sdks.Prelude.{
  ◌≢◌, eq_iff, arith, ℕ, zero, suc, String, ◌≡◌, refl, sym, ap, ◌∙◌, Bool, true, false, Option,
  none, some, List, [], ◌∷◌, if◌then◌else◌, ◌==◌,
}
use iforevents_sdks.Js.Number.{Number, of_ℕ}
use iforevents_sdks.Js.Value.{Value, string, array, items}
use iforevents_sdks.Js.Runtime.{Runtime}
use iforevents_sdks.Errors.{
  ApiError, network_error, retryable, retryable_kind, classify_response, kind_of,
}
use iforevents_sdks.Types.{no_hooks}
use iforevents_sdks.Storage.{Entries, memory_storage}
use iforevents_sdks.Ids.{Bytes}
use iforevents_sdks.Api.{
  Config, Answer, failed, response, stalled, Env, State, new_state, user_key, anonymous_key,
  identified_key, queue_key,
}
use iforevents_sdks.Api.Request.{Verdict, accepted, refused, unanswered, judge}
use iforevents_sdks.Api.Request.Attempts.{verdict}
use iforevents_sdks.Api.Request.Ends.{Settles}
use iforevents_sdks.Api.Queue.Conservation.{NeverPermanent}

pub unlike : (s t : String) → (s == t) ≡ false → s ≢ t
unlike s t h e = ground (arith, eq_iff s t)

abbrev pub waiting : List Value
waiting = string "first" ∷ string "second" ∷ []

-- Every text parses to the waiting queue, and every value is written as one text.
abbrev pub plain_runtime : Runtime
plain_runtime = record {
  string_of = λ v. "text";
  number_of = λ text. of_ℕ 7;
  decimal = λ n. "503";
  parse = λ text. some (array (items waiting));
  stringify = λ v. "saved";
}

abbrev pub config_with : (requeue throws : Bool) → Config
config_with requeue throws = record {
  project_key = "pk";
  base_url = "https://api.example";
  batch_size = of_ℕ 20;
  flush_interval = of_ℕ 10000;
  timeout = of_ℕ 10000;
  max_retries = 1;
  retry_delay = 1000;
  requeue_failed_events = requeue;
  debug = false;
  throw_on_error = throws;
  persist_queue = true;
  max_queue_size = 1000;
  user_agent = none;
}

abbrev pub sixteen : Bytes
sixteen =
    0 ∷ 17 ∷ 34 ∷ 51 ∷ 68 ∷ 85 ∷ 102 ∷ 119 ∷ 136 ∷ 153 ∷ 170 ∷ 187 ∷ 204 ∷ 221 ∷ 238 ∷ 255 ∷ []

abbrev pub env_with : Config → (ℕ → Answer) → Env Entries
env_with config answers = record {
  config = config;
  hooks = no_hooks;
  runtime = plain_runtime;
  storage = memory_storage;
  answers = answers;
  clock = λ n. "2026-01-01T00:00:00.000Z";
  event_context = λ n. none;
  random = λ n. sixteen;
}

-- The first answer is a 503; from then on, all is well.
abbrev pub recovering : ℕ → Answer
recovering zero = response 503 "" none
recovering (suc n) = response 200 "" none

-- The network is down.
abbrev pub down : ℕ → Answer
down n = failed "offline"

-- The first answer is a 503; the next never comes.
abbrev pub hanging : ℕ → Answer
hanging zero = response 503 "" none
hanging (suc n) = stalled

abbrev pub kept : Env Entries
kept = env_with (config_with true false) recovering

abbrev pub hung : Env Entries
hung = env_with (config_with true false) hanging

-- Refused batches are not put back.
abbrev pub losing : Env Entries
losing = env_with (config_with false false) down

-- The caller hears of refusals.
abbrev pub loud : Env Entries
loud = env_with (config_with true true) down

abbrev pub known_store : Entries
known_store =
    (user_key, "ana")
    ∷ (identified_key, "true")
    ∷ (anonymous_key, "anon_1")
    ∷ (queue_key, "saved")
    ∷ []

-- A running instance with two events waiting, of an identified visitor.
abbrev pub running : State Entries
running = record {
  queue = waiting;
  timer = true;
  user_id = some "ana";
  anon_id = some "anon_1";
  initialized = true;
  identified = true;
  quota_exceeded = false;
  store = known_store;
  sent = [];
  slept = [];
  drawn = 0;
  built = 0;
  on_error = [];
  on_quota_exceeded = [];
}

error_of : Verdict → ApiError
error_of (accepted json) = network_error ""
error_of (refused e) = e
error_of unanswered = network_error ""

transient_by :
    (v : Verdict) (x e : ApiError)
    → v ≡ refused x
    → v ≡ refused e
    → retryable x ≡ true
    → retryable e ≡ true
unfolding error_of
transient_by v x e a b h = ap (λ w. retryable (error_of w)) (sym b ∙ a) ∙ h

pub kept_settles : Settles kept
kept_settles zero e = cc
kept_settles (suc n) e = cc

pub kept_never_permanent : NeverPermanent kept
unfolding judge classify_response kind_of retryable_kind
kept_never_permanent zero e h = transient_by (verdict kept 0) _ e refl h refl
kept_never_permanent (suc n) e h = cc

pub losing_never_permanent : NeverPermanent losing
unfolding judge retryable_kind
losing_never_permanent n e h =
    transient_by (verdict losing n) (network_error "offline") e refl h refl
