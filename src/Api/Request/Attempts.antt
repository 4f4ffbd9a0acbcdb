-- ===== src/Api/Request/Attempts.antt =====
-- The loop of `request`: how many attempts it makes, and what it comes to.
use iforevents_sdks.Prelude.{
  ℕ, zero, suc, ◌+◌, ◌≤◌, ◌<◌, String, ◌≡◌, refl, ◌∙◌, ◌⊎◌, Bool, true, false, none, some, List, [],
  ◌∷◌, ◌++◌, append_assoc, append-nil, length, replicate, length-replicate, replicate-concat, ◌-◌,
  arith, length-append,
}
use iforevents_sdks.Js.Number.{Number}
use iforevents_sdks.Js.Value.{Value}
use iforevents_sdks.Errors.{ApiError, api, retryable}
use iforevents_sdks.Exec.{ok, thrown, out_of_fuel}
use iforevents_sdks.Api.{Post, Env, State}
use iforevents_sdks.Api.Request.{
  Verdict, accepted, refused, unanswered, judge, delay, note_outcome, fetch, sleep, attempts,
  request, post_of,
}

module _ {S : Type 0} (env : Env S) where
  -- What the code makes of the n-th answer.
  abbrev pub verdict : ℕ → Verdict
  verdict n = judge env.runtime (env.answers n)

  -- The `k` answers from the n-th on are refusals that are retried.
  abbrev pub Transient : ℕ → ℕ → Type 0
  Transient n zero = Unit {0}
  Transient n (suc k) =
      ((e : ApiError) × (verdict n ≡ refused e) × (retryable e ≡ true)) × Transient (suc n) k

  abbrev waits_for : Verdict → ℕ → List Number → List Number
  waits_for (accepted json) attempt rest = []
  waits_for (refused e) attempt rest = delay env.config e attempt ∷ rest
  waits_for unanswered attempt rest = []

  -- The delays after the `k` answers from the n-th on.
  abbrev pub waits : ℕ → ℕ → ℕ → List Number
  waits n attempt zero = []
  waits n attempt (suc k) = waits_for (verdict n) attempt (waits (suc n) (suc attempt) k)

  -- The state once a request has been sent `k` times, with these delays.
  abbrev pub sent_times : ℕ → Post → List Number → State S → State S
  sent_times k post ms s = record s { sent = s.sent ++ replicate k post; slept = s.slept ++ ms }

  module _ (post : Post) where
    attempts_again :
        (fuel attempt : ℕ) (s : State S) (e : ApiError)
        → verdict (length s.sent) ≡ refused e
        → retryable e ≡ true
        → attempt < env.config.max_retries
        → attempts env (suc fuel) attempt post s
          ≡ attempts env fuel
              (suc attempt)
              post
              (sent_times 1 post (delay env.config e attempt ∷ []) s)
    unfolding attempts fetch sleep
    attempts_again fuel attempt s e v r lt = ground arith

    attempts_accepted :
        (fuel attempt : ℕ) (s : State S) (json : Value)
        → verdict (length s.sent) ≡ accepted json
        → attempts env (suc fuel) attempt post s
          ≡ (ok json, note_outcome none (sent_times 1 post [] s))
    unfolding attempts fetch
    attempts_accepted fuel attempt s json v = ground (arith, append-nil s.slept)

    attempts_refused :
        (fuel attempt : ℕ) (s : State S) (e : ApiError)
        → verdict (length s.sent) ≡ refused e
        → (retryable e ≡ false) ⊎ (env.config.max_retries ≤ attempt)
        → attempts env (suc fuel) attempt post s
          ≡ (thrown (api e), note_outcome (some e) (sent_times 1 post [] s))
    unfolding attempts fetch
    attempts_refused fuel attempt s e v why = ground (arith, append-nil s.slept)

    attempts_unanswered :
        (fuel attempt : ℕ) (s : State S)
        → verdict (length s.sent) ≡ unanswered
        → attempts env (suc fuel) attempt post s ≡ (out_of_fuel, sent_times 1 post [] s)
    unfolding attempts fetch
    attempts_unanswered fuel attempt s v = ground (arith, append-nil s.slept)

    attempts_skip :
        (k rest fuel attempt n : ℕ) (s : State S)
        → length s.sent ≡ n
        → fuel ≡ k + rest
        → Transient n k
        → attempt + k ≤ env.config.max_retries
        → attempts env fuel attempt post s
          ≡ attempts env rest (attempt + k) post (sent_times k post (waits n attempt k) s)
    attempts_skip zero rest fuel attempt n s len e t le =
        let same : fuel ≡ rest = omega arith in
        let start : attempt + 0 ≡ attempt = omega arith in
        rw (append-nil s.sent, append-nil s.slept, same, start)
    attempts_skip (suc k) rest zero attempt n s len e t le = absurd (omega arith)
    attempts_skip (suc k) rest (suc fuel) attempt n s len e ((x, v, r), t) le =
        let next : State S = sent_times 1 post (delay env.config x attempt ∷ []) s in
        let moved : suc attempt + k ≡ attempt + suc k = omega arith in
        attempts_again fuel attempt s x (rw len v) r (omega arith)
        ∙ attempts_skip k rest fuel (suc attempt) (suc n) next
            (omega (arith, length-append s.sent (post ∷ []))) (omega arith) t (omega arith)
        ∙ rw (moved, v, append_assoc s.sent (post ∷ []), append_assoc s.slept)

    pub length-sent_times :
        (k : ℕ) (ms : List Number) (s : State S)
        → length (sent_times k post ms s).sent ≡ length s.sent + k
    length-sent_times k ms s =
        omega (arith, length-append s.sent (replicate k post), length-replicate k post)

    pub sent_once_more :
        (k : ℕ) (ms : List Number) (s : State S)
        → sent_times 1 post [] (sent_times k post ms s) ≡ sent_times (suc k) post ms s
    sent_once_more k ms s =
        rw (append_assoc s.sent, replicate-concat k post, append-nil (s.slept ++ ms))

    request_skip :
        (k : ℕ) (s : State S)
        → Transient (length s.sent) k
        → k ≤ env.config.max_retries
        → attempts env (suc env.config.max_retries) 0 post s
          ≡ attempts env
              (suc (env.config.max_retries - k))
              k
              post
              (sent_times k post (waits (length s.sent) 0 k) s)
    request_skip k s t le =
        let start : 0 + k ≡ k = omega arith in
        rw start at (
          attempts_skip k (suc (env.config.max_retries - k)) (suc env.config.max_retries) 0
            (length s.sent) s refl (omega arith) t (omega arith))

  -- After `k` retried refusals, an answer that never comes leaves the request pending for ever.
  pub request_stalls :
      (path : String) (body : Value) (keepalive : Bool) (s : State S) (k : ℕ)
      → k ≤ env.config.max_retries
      → Transient (length s.sent) k
      → verdict (length s.sent + k) ≡ unanswered
      → request env path body keepalive s ≡ (
        out_of_fuel,
        sent_times (suc k) (post_of env path body keepalive s) (waits (length s.sent) 0 k) s,
      )
  unfolding request
  request_stalls path body keepalive s k le t v =
      let post : Post = post_of env path body keepalive s in
      let ms : List Number = waits (length s.sent) 0 k in
      request_skip post k s t le
      ∙ attempts_unanswered post (env.config.max_retries - k) k (sent_times k post ms s)
          (rw (length-sent_times post k ms s) v)
      ∙ rw (sent_once_more post k ms s)

  -- After `k` retried refusals, with `k` within the retries, an accepted answer ends the request:
  -- the same POST has gone out `k + 1` times, with the delays between, and its JSON is returned.
  pub request_delivers :
      (path : String) (body : Value) (keepalive : Bool) (s : State S) (k : ℕ) (json : Value)
      → k ≤ env.config.max_retries
      → Transient (length s.sent) k
      → verdict (length s.sent + k) ≡ accepted json
      → request env path body keepalive s ≡ (
        ok json,
        note_outcome none
            (sent_times (suc k) (post_of env path body keepalive s) (waits (length s.sent) 0 k) s),
      )
  unfolding request
  request_delivers path body keepalive s k json le t v =
      let post : Post = post_of env path body keepalive s in
      let ms : List Number = waits (length s.sent) 0 k in
      request_skip post k s t le
      ∙ attempts_accepted post (env.config.max_retries - k) k (sent_times k post ms s) json
          (rw (length-sent_times post k ms s) v)
      ∙ rw (sent_once_more post k ms s)

  -- After `k` retried refusals, a refusal that is permanent, or that comes when the retries are
  -- used up, ends the request: the same POST has gone out `k + 1` times, with the delays between,
  -- and its error is thrown.
  pub request_gives_up :
      (path : String) (body : Value) (keepalive : Bool) (s : State S) (k : ℕ) (e : ApiError)
      → k ≤ env.config.max_retries
      → Transient (length s.sent) k
      → verdict (length s.sent + k) ≡ refused e
      → (retryable e ≡ false) ⊎ (k ≡ env.config.max_retries)
      → request env path body keepalive s ≡ (
        thrown (api e),
        note_outcome
            (some e)
            (sent_times (suc k) (post_of env path body keepalive s) (waits (length s.sent) 0 k) s),
      )
  unfolding request
  request_gives_up path body keepalive s k e le t v why =
      let post : Post = post_of env path body keepalive s in
      let ms : List Number = waits (length s.sent) 0 k in
      request_skip post k s t le
      ∙ attempts_refused post (env.config.max_retries - k) k (sent_times k post ms s) e
          (rw (length-sent_times post k ms s) v) (ground arith)
      ∙ rw (sent_once_more post k ms s)
