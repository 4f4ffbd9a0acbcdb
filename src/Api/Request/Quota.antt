-- ===== src/Api/Request/Quota.antt =====
-- `onQuotaExceeded`, through a whole request.
use iforevents_sdks.Prelude.{
  String, ◌≡◌, refl, inl, inr, Bool, true, false, none, some, [], ◌∷◌, ◌++◌, length, Bool-cases,
  arith,
}
use iforevents_sdks.Js.Value.{Value}
use iforevents_sdks.Errors.{ApiError, api, is_quota}
use iforevents_sdks.Exec.{Outcome, ok, thrown, out_of_fuel}
use iforevents_sdks.Api.{Env, State}
use iforevents_sdks.Api.Request.{note_outcome, request}
use iforevents_sdks.Api.Request.Attempts.{request_delivers, request_gives_up, request_stalls}
use iforevents_sdks.Api.Request.Ends.{stops, delivered, gave_up, hung}

-- What a request that ends with an outcome in the state `t` does to the flag and to the calls of
-- `onQuotaExceeded`.
pub data QuotaNoted {S : Type 0} (s t : State S) : Outcome Value → Type 0 where
  cleared :
      {json : Value}
      → t.quota_exceeded ≡ false
      → t.on_quota_exceeded ≡ s.on_quota_exceeded
      → QuotaNoted s t (ok json)
  raised :
      {e : ApiError}
      → is_quota e.kind ≡ true
      → s.quota_exceeded ≡ false
      → t.quota_exceeded ≡ true
      → t.on_quota_exceeded ≡ s.on_quota_exceeded ++ e ∷ []
      → QuotaNoted s t (thrown (api e))
  still_raised :
      {e : ApiError}
      → is_quota e.kind ≡ true
      → s.quota_exceeded ≡ true
      → t.quota_exceeded ≡ true
      → t.on_quota_exceeded ≡ s.on_quota_exceeded
      → QuotaNoted s t (thrown (api e))
  unrelated :
      {e : ApiError}
      → is_quota e.kind ≡ false
      → t.quota_exceeded ≡ s.quota_exceeded
      → t.on_quota_exceeded ≡ s.on_quota_exceeded
      → QuotaNoted s t (thrown (api e))
  unended :
      t.quota_exceeded ≡ s.quota_exceeded
      → t.on_quota_exceeded ≡ s.on_quota_exceeded
      → QuotaNoted s t out_of_fuel

module _ {S : Type 0} (env : Env S) where
  refusal_noted :
      (s t : State S) (e : ApiError)
      → t.quota_exceeded ≡ s.quota_exceeded
      → t.on_quota_exceeded ≡ s.on_quota_exceeded
      → QuotaNoted s (note_outcome (some e) t) (thrown (api e))
  unfolding note_outcome
  refusal_noted s t e flag calls = elim (Bool-cases (is_quota e.kind)) [
    | inl quota ↦ elim (Bool-cases s.quota_exceeded) [
      | inl on ↦ still_raised quota on (ground arith) (ground arith)
      | inr off ↦ raised quota off (ground arith) (ground arith)
    ]
    | inr unlike ↦ unrelated unlike (ground arith) (ground arith)
  ]

  success_noted :
      (s t : State S) (json : Value)
      → t.on_quota_exceeded ≡ s.on_quota_exceeded
      → QuotaNoted s (note_outcome none t) (ok json)
  unfolding note_outcome
  success_noted s t json calls = cleared refl calls

  -- An accepted request clears the quota flag. A request that ends in a quota refusal raises it,
  -- and calls `onQuotaExceeded` with that refusal only if it was not raised before; one that ends
  -- in another refusal, or that never ends, changes nothing of it. Retries in between call nothing.
  pub request-QuotaNoted :
      (path : String) (body : Value) (keepalive : Bool) (s : State S)
      → QuotaNoted s (request env path body keepalive s).1 (request env path body keepalive s).0
  request-QuotaNoted path body keepalive s = elim (stops env (length s.sent)) [
    | delivered k json le t v ↦
        rw (request_delivers env path body keepalive s k json le t v) (success_noted s _ json refl)
    | gave_up k e le t v why ↦
        rw (request_gives_up env path body keepalive s k e le t v why)
          (refusal_noted s _ e refl refl)
    | hung k le t v ↦ rw (request_stalls env path body keepalive s k le t v) (unended refl refl)
  ]
