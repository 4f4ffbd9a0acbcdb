-- ===== src/Api/Request/Ends.antt =====
-- Where the loop of `request` stops, and what it stops for.
use iforevents_sdks.Prelude.{
  ℕ, zero, suc, ◌+◌, ◌≤◌, ◌<◌, String, ◌≡◌, refl, ◌⊎◌, inl, inr, Bool, true, false, Option, none,
  some, List, ◌++◌, length, replicate, ◌≢◌, Bool-cases, arith,
}
use iforevents_sdks.Js.Number.{Number}
use iforevents_sdks.Js.Value.{Value}
use iforevents_sdks.Errors.{ApiError, retryable}
use iforevents_sdks.Exec.{Ends}
use iforevents_sdks.Api.{Answer, failed, stalled, response, Post, Env, State}
use iforevents_sdks.Api.Request.{
  Verdict, accepted, refused, unanswered, judge, is_ok, note_outcome, request, post_of,
}
use iforevents_sdks.Api.Request.Attempts.{
  verdict, Transient, waits, sent_times, length-sent_times, request_delivers, request_gives_up,
  request_stalls,
}

module _ {S : Type 0} (env : Env S) where
  -- Where the loop stops: after `k` retried refusals, at an answer that is accepted, or refused
  -- for good, or refused when the retries are used up, or that never comes.
  pub data Stop (n : ℕ) : Type 0 where
    delivered :
        (k : ℕ) (json : Value)
        → k ≤ env.config.max_retries
        → Transient env n k
        → verdict env (n + k) ≡ accepted json
        → Stop n
    gave_up :
        (k : ℕ) (e : ApiError)
        → k ≤ env.config.max_retries
        → Transient env n k
        → verdict env (n + k) ≡ refused e
        → (retryable e ≡ false) ⊎ (k ≡ env.config.max_retries)
        → Stop n
    hung :
        (k : ℕ)
        → k ≤ env.config.max_retries
        → Transient env n k
        → verdict env (n + k) ≡ unanswered
        → Stop n

  Transient-snoc :
      (n k : ℕ) (e : ApiError)
      → Transient env n k
      → verdict env (n + k) ≡ refused e
      → retryable e ≡ true
      → Transient env n (suc k)
  Transient-snoc n zero e t v r = let start : n + 0 ≡ n = omega arith in ((e, rw start at v, r), tt)
  Transient-snoc n (suc k) e (h, t) v r =
      let moved : n + suc k ≡ suc n + k = omega arith in
      (h, Transient-snoc (suc n) k e t (rw moved at v) r)

  Verdict-cases :
      (w : Verdict)
      → ((json : Value) × (w ≡ accepted json))
        ⊎ ((e : ApiError) × (w ≡ refused e))
        ⊎ (w ≡ unanswered)
  Verdict-cases (accepted json) = inl (json, refl)
  Verdict-cases (refused e) = inr (inl (e, refl))
  Verdict-cases unanswered = inr (inr refl)

  Stop-from : (left k n : ℕ) → k + left ≡ env.config.max_retries → Transient env n k → Stop n
  Stop-from zero k n sum t = elim (Verdict-cases (verdict env (n + k))) [
    | inl (json, v) ↦ delivered k json (omega arith) t v
    | inr (inl (e, v)) ↦ gave_up k e (omega arith) t v (inr (omega arith))
    | inr (inr v) ↦ hung k (omega arith) t v
  ]
  Stop-from (suc left) k n sum t = elim (Verdict-cases (verdict env (n + k))) [
    | inl (json, v) ↦ delivered k json (omega arith) t v
    | inr (inl (e, v)) ↦ elim (Bool-cases (retryable e)) [
      | inl again ↦ Stop-from left (suc k) n (omega arith) (Transient-snoc n k e t v again)
      | inr permanent ↦ gave_up k e (omega arith) t v (inl permanent)
    ]
    | inr (inr v) ↦ hung k (omega arith) t v
  ]

  -- The loop stops at one of the first `max_retries + 1` answers.
  pub stops : (n : ℕ) → Stop n
  stops n = Stop-from env.config.max_retries 0 n (omega arith) tt

  -- Every fetch settles, and so does the body of its response.
  abbrev pub Settles : Type 0
  Settles = (n : ℕ) → env.answers n ≢ stalled

  judge-unanswered : (a : Answer) → judge env.runtime a ≡ unanswered → a ≡ stalled
  unfolding judge
  judge-unanswered (failed message) e = cc
  judge-unanswered stalled e = refl
  judge-unanswered (response status text header) e = elim (Bool-cases (is_ok status)) [
    | inl y ↦ cc (rw y at e)
    | inr n ↦ cc (rw n at e)
  ]

  pub Settles-answered : Settles → (n : ℕ) → verdict env n ≢ unanswered
  Settles-answered settles n e = settles n (judge-unanswered (env.answers n) e)

  -- What no request touches.
  pub record Untouched (s t : State S) : Type 0 where
    pub queue : t.queue ≡ s.queue
    pub timer : t.timer ≡ s.timer
    pub user_id : t.user_id ≡ s.user_id
    pub anon_id : t.anon_id ≡ s.anon_id
    pub identified : t.identified ≡ s.identified
    pub store : t.store ≡ s.store
    pub drawn : t.drawn ≡ s.drawn

  pub sent-note_outcome : (o : Option ApiError) (s : State S) → (note_outcome o s).sent ≡ s.sent
  unfolding note_outcome
  sent-note_outcome none s = refl
  sent-note_outcome (some e) s = ground arith

  pub Untouched-note_outcome :
      (o : Option ApiError) (k : ℕ) (post : Post) (ms : List Number) (s : State S)
      → Untouched s (note_outcome o (sent_times env k post ms s))
  unfolding note_outcome
  Untouched-note_outcome none k post ms s = ground arith
  Untouched-note_outcome (some e) k post ms s = ground arith

  pub Untouched-sent_times :
      (k : ℕ) (post : Post) (ms : List Number) (s : State S)
      → Untouched s (sent_times env k post ms s)
  Untouched-sent_times k post ms s = ground arith

  count-sent_times :
      (o : Option ApiError) (k : ℕ) (post : Post) (ms : List Number) (s : State S)
      → length (note_outcome o (sent_times env (suc k) post ms s)).sent ≡ length s.sent + suc k
  count-sent_times o k post ms s = rw sent-note_outcome (length-sent_times env post (suc k) ms s)

  -- Also of a request that hangs, the queue, the identity and the store stay.
  pub request-Untouched :
      (path : String) (body : Value) (keepalive : Bool) (s : State S)
      → Untouched s (request env path body keepalive s).1
  request-Untouched path body keepalive s =
      let post : Post = post_of env path body keepalive s in
      elim (stops (length s.sent)) [
        | delivered k json le t v ↦
            rw (request_delivers env path body keepalive s k json le t v)
              (Untouched-note_outcome none (suc k) post (waits env (length s.sent) 0 k) s)
        | gave_up k e le t v why ↦
            rw (request_gives_up env path body keepalive s k e le t v why)
              (Untouched-note_outcome (some e) (suc k) post (waits env (length s.sent) 0 k) s)
        | hung k le t v ↦
            rw (request_stalls env path body keepalive s k le t v)
              (Untouched-sent_times (suc k) post (waits env (length s.sent) 0 k) s)
      ]

  -- Where `maxRetries` is a natural number, and every fetch and the body of every response settles,
  -- a request ends: it is sent once at least and `max_retries + 1` times at most, it returns or
  -- throws, and the queue, the identity and the store stay.
  pub request-Ends :
      (settles : Settles) (path : String) (body : Value) (keepalive : Bool) (s : State S)
      → Ends (request env path body keepalive s).0
        × (length s.sent < length (request env path body keepalive s).1.sent)
        × (length (request env path body keepalive s).1.sent
            ≤ length s.sent + suc env.config.max_retries)
        × Untouched s (request env path body keepalive s).1
  request-Ends settles path body keepalive s =
      let post : Post = post_of env path body keepalive s in
      elim (stops (length s.sent)) [
        | delivered k json le t v ↦
            let ms : List Number = waits env (length s.sent) 0 k in
            let count = count-sent_times none k post ms s in
            rw (request_delivers env path body keepalive s k json le t v)
              (tt, omega arith, omega arith, Untouched-note_outcome none (suc k) post ms s)
        | gave_up k e le t v why ↦
            let ms : List Number = waits env (length s.sent) 0 k in
            let count = count-sent_times (some e) k post ms s in
            rw (request_gives_up env path body keepalive s k e le t v why)
              (tt, omega arith, omega arith, Untouched-note_outcome (some e) (suc k) post ms s)
        | hung k le t v ↦ elim (Settles-answered settles (length s.sent + k) v) [ ]
      ]

  -- A request leaves at least once and always the same.
  pub request_sent :
      (path : String) (body : Value) (keepalive : Bool) (s : State S)
      → (k : ℕ) × ((request env path body keepalive s).1.sent
          ≡ s.sent ++ replicate (suc k) (post_of env path body keepalive s))
  request_sent path body keepalive s = elim (stops (length s.sent)) [
    | delivered k json le t v ↦ (
      k,
      rw (request_delivers env path body keepalive s k json le t v) (sent-note_outcome none _),
    )
    | gave_up k e le t v why ↦ (
      k,
      rw (request_gives_up env path body keepalive s k e le t v why) (sent-note_outcome (some e) _),
    )
    | hung k le t v ↦ (k, rw (request_stalls env path body keepalive s k le t v) refl)
  ]
