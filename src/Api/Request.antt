-- ===== src/Api/Request.antt =====
-- One request to the api: its envelope, its headers, and the attempts to send it.
pub mod Attempts
pub mod Ends
pub mod Quota
use iforevents_sdks.Prelude.{
  ℕ, zero, suc, ◌+◌, ◌*◌, String, Bool, true, false, not, ◌&&◌, ◌||◌, Option, none, some, List, [],
  ◌∷◌, ◌++◌, length, ◌==◌, leb, ltb, if◌then◌else◌,
}
use Prim.Native.String.{◌++◌ as str_append}
use iforevents_sdks.Js.Number.{Number, of_ℕ, is_positive}
use iforevents_sdks.Js.Value.{Value, undefined, null, string, object, Properties, empty, entry}
use iforevents_sdks.Js.Runtime.{Runtime}
use iforevents_sdks.Errors.{
  Error, api, ApiError, retryable, retry_after, is_quota, network_error, classify_response,
}
use iforevents_sdks.Exec.{Exec, ok, exhausted, unsettled, ◌>>=◌, ◌>>◌, pure, throw, gets, modify}
use iforevents_sdks.Api.{Config, Post, Answer, failed, stalled, response, Env, State, truthy}

-- `parseJSON`
unfoldable pub parse_json : Runtime → String → Value
parse_json rt text = if text == "" then null else elim (rt.parse text) [ none ↦ null | some v ↦ v ]

-- `res.ok`
abbrev pub is_ok : ℕ → Bool
is_ok status = leb 200 status && ltb status 300

pub data Verdict : Type 0 where
  accepted : Value → Verdict
  refused : ApiError → Verdict
  unanswered : Verdict

-- What one round of the loop makes of an answer.
unfoldable pub judge : Runtime → Answer → Verdict
judge rt (failed message) = refused (network_error message)
judge rt stalled = unanswered
judge rt (response status text header) =
    if is_ok status
    then accepted (parse_json rt text)
    else refused (classify_response rt status (parse_json rt text) header)

-- `retryAfter && retryAfter > 0 ? retryAfter : retryDelay * (attempt + 1)`
unfoldable pub delay : Config → ApiError → ℕ → Number
delay config e attempt = elim (retry_after e.kind) [
  | none ↦ of_ℕ (config.retry_delay * (attempt + 1))
  | some ms ↦ if is_positive ms then ms else of_ℕ (config.retry_delay * (attempt + 1))
]

abbrev header : String → Option String → List (String × String)
header name none = []
header name (some v) = (name, v) ∷ []

unfoldable pub headers_of : Config → Option String → List (String × String)
headers_of config user_id =
    ("Content-Type", "application/json")
      ∷ ("X-Project-Key", config.project_key)
      ∷ header "X-User-Id" (truthy user_id)
    ++ header "User-Agent" (truthy config.user_agent)

abbrev pub or_empty : Option Value → Value
or_empty none = object empty
or_empty (some undefined) = object empty
or_empty (some null) = object empty
or_empty (some v) = v

abbrev pub anonymous_entry : Option String → Properties → Properties
anonymous_entry none p = p
anonymous_entry (some id) p = entry "anonymous_id" (string id) p

module _ {S : Type 0} where
  -- `noteOutcome`
  unfoldable pub note_outcome : Option ApiError → State S → State S
  note_outcome none s = record s { quota_exceeded = false }
  note_outcome (some e) s =
      if is_quota e.kind && not s.quota_exceeded
      then record s { quota_exceeded = true; on_quota_exceeded = s.on_quota_exceeded ++ e ∷ [] }
      else s

  module _ (env : Env S) where
    -- `envelope`
    unfoldable pub envelope : Exec (State S) Properties
    envelope s = (
      ok (
          anonymous_entry (truthy s.anon_id) (
            entry "sent_at" (string (env.clock s.built))
              (entry "context" (or_empty (env.event_context s.built)) empty))),
      record s { built = s.built + 1 },
    )

    -- `fetchImpl(url, ...)` and `res.text()`
    unfoldable pub fetch : Post → Exec (State S) Answer
    fetch post s = (ok (env.answers (length s.sent)), record s { sent = s.sent ++ post ∷ [] })

    unfoldable pub sleep : Number → Exec (State S) (Unit {0})
    sleep ms s = (ok tt, record s { slept = s.slept ++ ms ∷ [] })

    -- The loop of `request`, from the attempt of a number.
    unfoldable pub attempts : ℕ → ℕ → Post → Exec (State S) Value
    unfolding fetch sleep note_outcome
    attempts zero attempt post = exhausted
    attempts (suc fuel) attempt post = do
      answer ← fetch post
      elim (judge env.runtime answer) [
        | accepted json ↦ do modify (note_outcome none); pure json
        | refused e ↦
            if not (retryable e) || leb env.config.max_retries attempt
            then (do modify (note_outcome (some e)); throw (api e))
            else (do sleep (delay env.config e attempt); attempts fuel (attempt + 1) post)
        | unanswered ↦ unsettled
      ]

    abbrev pub post_of : String → Value → Bool → State S → Post
    post_of path body keepalive s = record {
      url = str_append env.config.base_url path;
      headers = headers_of env.config s.user_id;
      body = body;
      keepalive = keepalive;
    }

    -- `request`; the attempts are at most one more than the retries.
    unfoldable pub request : String → Value → Bool → Exec (State S) Value
    request path body keepalive s =
        attempts (suc env.config.max_retries) 0 (post_of path body keepalive s) s
