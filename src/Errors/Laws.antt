-- ===== src/Errors/Laws.antt =====
-- What an answer of the api means for the events that it was about.
use iforevents_sdks.Prelude.{
  ℕ, ◌≤◌, String, ◌≡◌, ◌↔◌, ◌⊎◌, ◌≢◌, true, Option, some, arith, eq_iff, Option-cases, inl, inr,
}
use iforevents_sdks.Js.Value.{Value}
use iforevents_sdks.Js.Runtime.{Runtime}
use iforevents_sdks.Errors.{
  retryable, retryable_kind, is_quota, code_of, kind_of, classify_response,
}

-- An answer is retried exactly when its status is 500 or more, or 429 with a code other than
-- `quota_exceeded`.
pub classify_response-retryable_iff :
    (rt : Runtime) (status : ℕ) (body : Value) (header : Option String)
    → (retryable (classify_response rt status body header) ≡ true)
      ↔ ((500 ≤ status) ⊎ ((status ≡ 429) × (code_of body ≢ some "quota_exceeded")))
unfolding classify_response kind_of retryable_kind
classify_response-retryable_iff rt status body header = elim (Option-cases (code_of body)) [
  | inl e ↦ rw e (ground arith)
  | inr (c, e) ↦ rw e (ground (arith, eq_iff c "quota_exceeded"))
]

-- The quota class is raised exactly for status 429 with the code `quota_exceeded`.
pub classify_response-is_quota_iff :
    (rt : Runtime) (status : ℕ) (body : Value) (header : Option String)
    → (is_quota (classify_response rt status body header).kind ≡ true)
      ↔ ((status ≡ 429) × (code_of body ≡ some "quota_exceeded"))
unfolding classify_response kind_of is_quota
classify_response-is_quota_iff rt status body header = elim (Option-cases (code_of body)) [
  | inl e ↦ rw e (ground arith)
  | inr (c, e) ↦ rw e (ground (arith, eq_iff c "quota_exceeded"))
]
