-- ===== src/Errors.antt =====
-- js/packages/core/src/errors.ts. A subclass of IForeventsAPIError is a case of `Kind`, with the
-- fields that the class adds.
pub mod Laws
use iforevents_sdks.Prelude.{
  ℕ, String, Bool, true, false, ◌||◌, ◌&&◌, not, Option, none, some, ◌==◌, eqb, leb, if◌then◌else◌,
}
use Prim.Native.String.{◌++◌}
use iforevents_sdks.Js.Number.{Number, is_finite, times}
use iforevents_sdks.Js.Value.{
  Value, undefined, null, boolean, number, string, array, object, instance_of, get,
}
use iforevents_sdks.Js.Runtime.{Runtime, is_blank, parse_int}

pub data Kind : Type 0 where
  plain : Kind
  auth : Kind
  quota_exceeded : (limit used : Option Number) (organization_uuid : Option String) → Kind
  rate_limited : (retry_after_ms : Option Number) → Kind

pub record ApiError : Type 0 where
  pub kind : Kind
  pub message : String
  pub status : Option ℕ
  pub code : Option String
  pub details : Option Value

-- What a call can throw: an `IForeventsAPIError`, or another value with its text.
pub data Error : Type 0 where
  api : ApiError → Error
  other : String → Error

-- The getter `retryable`, as the four classes override it.
unfoldable pub retryable_kind : Kind → Option ℕ → Bool
retryable_kind plain none = true
retryable_kind plain (some status) = leb 500 status
retryable_kind auth status = false
retryable_kind (quota_exceeded limit used org) status = false
retryable_kind (rate_limited ms) status = true

abbrev pub retryable : ApiError → Bool
retryable e = retryable_kind e.kind e.status

unfoldable pub is_quota : Kind → Bool
is_quota (quota_exceeded limit used org) = true
is_quota k = false

-- `"retryAfterMs" in error ? error.retryAfterMs : undefined`
unfoldable pub retry_after : Kind → Option Number
retry_after (rate_limited ms) = ms
retry_after k = none

-- `new IForeventsAPIError(message, { cause })`
abbrev pub network_error : String → ApiError
network_error message = record {
  kind = plain;
  message = message;
  status = none;
  code = none;
  details = none;
}

-- `body && typeof body === "object" ? body : undefined`
abbrev details_of : Value → Option Value
details_of (object p) = some (object p)
details_of (array vs) = some (array vs)
details_of (instance_of name) = some (instance_of name)
details_of v = none

-- `details?.key`: an array has none of the keys that are read here.
abbrev field : Option Value → String → Value
field (some (object p)) key = elim (get key p) [ none ↦ undefined | some v ↦ v ]
field details key = undefined

abbrev text_of : Value → Option String
text_of (string s) = some s
text_of v = none

-- `a ?? b`, for a `b` that is a text
abbrev or_text : Value → Option String → Option Value
or_text undefined none = none
or_text undefined (some s) = some (string s)
or_text null none = none
or_text null (some s) = some (string s)
or_text v s = some v

unfoldable pub as_number : Runtime → Value → Option Number
as_number rt (number x) = some x
as_number rt (string s) =
    if not (is_blank s) && is_finite (rt.number_of s) then some (rt.number_of s) else none
as_number rt v = none

-- The seconds of the header, if it is there, not empty and a number, else those of the body.
unfoldable pub wait_seconds : Runtime → Value → Option String → Option Number
wait_seconds rt body none = as_number rt body
wait_seconds rt body (some header) =
    if not (header == "") && is_finite (parse_int header)
    then some (parse_int header)
    else as_number rt body

abbrev milliseconds : Option Number → Option Number
milliseconds none = none
milliseconds (some s) = some (times s 1000)

-- `code === "quota_exceeded"`
abbrev pub is_quota_code : Option String → Bool
is_quota_code none = false
is_quota_code (some code) = code == "quota_exceeded"

message_of : Runtime → ℕ → Value → Option String → String
message_of rt status message code = elim (or_text message code) [
  | some v ↦ rt.string_of v
  | none ↦ "request failed with status " ++ rt.decimal status
]

-- `typeof details?.error === "string" ? details.error : undefined`
unfoldable pub code_of : Value → Option String
code_of body = text_of (field (details_of body) "error")

unfoldable pub kind_of : Runtime → ℕ → Value → Option String → Kind
kind_of rt status body header =
    if eqb status 429 && is_quota_code (code_of body)
    then quota_exceeded (as_number rt (field (details_of body) "limit"))
        (as_number rt (field (details_of body) "used"))
        (text_of (field (details_of body) "org_uuid"))
    else if eqb status 429
    then rate_limited
        (milliseconds (wait_seconds rt (field (details_of body) "retry_after_seconds") header))
    else if eqb status 401 || eqb status 403
    then auth
    else plain

-- `classifyResponse`; a class that fixes status or code fixes it to the value that was tested.
unfoldable pub classify_response : Runtime → ℕ → Value → Option String → ApiError
unfolding message_of
classify_response rt status body header = record {
  kind = kind_of rt status body header;
  message = message_of rt status (field (details_of body) "message") (code_of body);
  status = some status;
  code = code_of body;
  details = details_of body;
}
