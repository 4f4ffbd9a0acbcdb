-- ===== src/Api/Queue/Delivery.antt =====
-- Which events the api has accepted, as the log of requests and answers tells.
use iforevents_sdks.Prelude.{
  ℕ, zero, suc, ◌+◌, String, ◌≡◌, refl, sym, ◌∙◌, ap, ◌⊎◌, inl, inr, Bool, Option, none, some, List,
  [], ◌∷◌, ◌++◌, append-nil, append_assoc, length, replicate, arith,
}
use iforevents_sdks.Js.Number.{Number}
use iforevents_sdks.Js.Value.{
  Value, array, object, Properties, empty, entry, items, elements, get, put, assign,
}
use iforevents_sdks.Errors.{ApiError, api}
use iforevents_sdks.Exec.{Outcome, ok, thrown}
use iforevents_sdks.Api.{Post, Env, State, truthy}
use iforevents_sdks.Api.Request.{
  Verdict, accepted, refused, unanswered, note_outcome, envelope, request, post_of, anonymous_entry,
}
use iforevents_sdks.Api.Request.Attempts.{
  verdict, Transient, waits, sent_times, request_delivers, request_gives_up,
}
use iforevents_sdks.Api.Request.Ends.{
  stops, delivered, gave_up, hung, Settles, Settles-answered, Untouched, Untouched-note_outcome,
  sent-note_outcome,
}
use iforevents_sdks.Api.Queue.{batch_body, persist, send_batch}

-- The events in the body of a request: those of `/batch` have some.
abbrev array_elements : Option Value → List Value
array_elements (some (array vs)) = elements vs
array_elements v = []

abbrev pub events_of_body : Value → List Value
events_of_body (object p) = array_elements (get "events" p)
events_of_body v = []

pub elements-items : (vs : List Value) → elements (items vs) ≡ vs
elements-items [] = refl
elements-items (v ∷ vs) = ap (◌∷◌ v) (elements-items vs)

module _ {S : Type 0} (env : Env S) where
  abbrev if_accepted : Verdict → List Value → List Value
  if_accepted (accepted json) events = events
  if_accepted (refused e) events = []
  if_accepted unanswered events = []

  -- The events of the accepted requests, the first of which has the number `n`.
  abbrev pub accepted_events : ℕ → List Post → List Value
  accepted_events n [] = []
  accepted_events n (p ∷ ps) =
      if_accepted (verdict env n) (events_of_body p.body) ++ accepted_events (suc n) ps

  -- All events that the api has accepted in batches, in order.
  abbrev pub all_accepted : State S → List Value
  all_accepted s = accepted_events 0 s.sent

  accepted_events-append :
      (n : ℕ) (ps qs : List Post)
      → accepted_events n (ps ++ qs) ≡ accepted_events n ps ++ accepted_events (n + length ps) qs
  accepted_events-append n [] qs = let start : n + 0 ≡ n = omega arith in rw start
  accepted_events-append n (p ∷ ps) qs =
      let moved : n + suc (length ps) ≡ suc n + length ps = omega arith in
      rw (accepted_events-append (suc n) ps qs, moved)
        (sym (
          append_assoc (if_accepted (verdict env n) (events_of_body p.body))
            (accepted_events (suc n) ps) (accepted_events (suc n + length ps) qs)))

  accepted_events-replicate_accepted :
      (k n : ℕ) (p : Post) (json : Value)
      → Transient env n k
      → verdict env (n + k) ≡ accepted json
      → accepted_events n (replicate (suc k) p) ≡ events_of_body p.body
  accepted_events-replicate_accepted zero n p json t v =
      let start : n + 0 ≡ n = omega arith in rw (rw start at v) (append-nil _)
  accepted_events-replicate_accepted (suc k) n p json ((x, r, _), t) v =
      let moved : n + suc k ≡ suc n + k = omega arith in
      rw r (accepted_events-replicate_accepted k (suc n) p json t (rw moved at v))

  accepted_events-replicate_refused :
      (k n : ℕ) (p : Post) (e : ApiError)
      → Transient env n k
      → verdict env (n + k) ≡ refused e
      → accepted_events n (replicate (suc k) p) ≡ []
  accepted_events-replicate_refused zero n p e t v =
      let start : n + 0 ≡ n = omega arith in rw (rw start at v)
  accepted_events-replicate_refused (suc k) n p e ((x, r, _), t) v =
      let moved : n + suc k ≡ suc n + k = omega arith in
      rw r (accepted_events-replicate_refused k (suc n) p e t (rw moved at v))

  all_accepted-sent_times :
      (o : Option ApiError) (k : ℕ) (p : Post) (ms : List Number) (s : State S) (new : List Value)
      → accepted_events (length s.sent) (replicate k p) ≡ new
      → all_accepted (note_outcome o (sent_times env k p ms s)) ≡ all_accepted s ++ new
  all_accepted-sent_times o k p ms s new e =
      let start : 0 + length s.sent ≡ length s.sent = omega arith in
      rw (sent-note_outcome env, accepted_events-append 0 s.sent (replicate k p), start, e)

  -- A request returned, and its events are accepted once; or it threw what the api made of one
  -- of its answers, and they are not.
  abbrev pub Sends : List Value → State S → Outcome Value × State S → Type 0
  Sends events s (r, t) =
      (((json : Value) × (r ≡ ok json))
        × (all_accepted t ≡ all_accepted s ++ events)
        × Untouched env s t)
      ⊎ ((e : ApiError) × (n : ℕ) × (r ≡ thrown (api e))
          × (verdict env n ≡ refused e)
          × (all_accepted t ≡ all_accepted s)
          × Untouched env s t)

  request-Sends :
      (settles : Settles env) (path : String) (body : Value) (keepalive : Bool) (s : State S)
      → Sends (events_of_body body) s (request env path body keepalive s)
  request-Sends settles path body keepalive s =
      let post : Post = post_of env path body keepalive s in
      elim (stops env (length s.sent)) [
        | delivered k json le t v ↦
            let ms : List Number = waits env (length s.sent) 0 k in
            rw (request_delivers env path body keepalive s k json le t v) (
              inl (
                (json, refl),
                all_accepted-sent_times none (suc k) post ms s _
                    (accepted_events-replicate_accepted k (length s.sent) post json t v),
                Untouched-note_outcome env none (suc k) post ms s,
              ))
        | gave_up k e le t v why ↦
            let ms : List Number = waits env (length s.sent) 0 k in
            rw (request_gives_up env path body keepalive s k e le t v why) (
              inr (
                e,
                length s.sent + k,
                refl,
                v,
                all_accepted-sent_times (some e) (suc k) post ms s []
                      (accepted_events-replicate_refused k (length s.sent) post e t v)
                    ∙ append-nil _,
                Untouched-note_outcome env (some e) (suc k) post ms s,
              ))
        | hung k le t v ↦ elim (Settles-answered env settles (length s.sent + k) v) [ ]
      ]

  events-batch_body :
      (events : List Value) (id : Option String) (sent_at context : Value)
      → events_of_body (
          batch_body env events
            (anonymous_entry id (entry "sent_at" sent_at (entry "context" context empty))))
        ≡ events
  unfolding get put assign
  events-batch_body events none sent_at context = elements-items events
  events-batch_body events (some id) sent_at context = elements-items events

  -- What a batch leaves alone.
  pub record Kept (s t : State S) : Type 0 where
    pub queue : t.queue ≡ s.queue
    pub timer : t.timer ≡ s.timer
    pub user_id : t.user_id ≡ s.user_id
    pub anon_id : t.anon_id ≡ s.anon_id
    pub identified : t.identified ≡ s.identified

  abbrev pub BatchSends : List Value → State S → Outcome (Unit {0}) × State S → Type 0
  BatchSends events s (r, t) =
      ((r ≡ ok tt) × (all_accepted t ≡ all_accepted s ++ events) × Kept s t)
      ⊎ ((e : ApiError) × (n : ℕ) × (r ≡ thrown (api e))
          × (verdict env n ≡ refused e)
          × (all_accepted t ≡ all_accepted s)
          × Kept s t)

  -- `send_batch` after its envelope, which has taken the state to `s`.
  send_batch_with :
      (settles : Settles env) (events : List Value) (keepalive : Bool) (extra : Properties)
      (s t : State S)
      → events_of_body (batch_body env events extra) ≡ events
      → (envelope env s) ≡ (ok extra, t)
      → all_accepted t ≡ all_accepted s
      → Kept s t
      → BatchSends events s (send_batch env events keepalive s)
  unfolding send_batch persist
  send_batch_with settles events keepalive extra s t body made same kept = ground (
    arith,
    made,
    rw body at (request-Sends settles "/v1/events/batch" (batch_body env events extra) keepalive t),
  )

  pub send_batch_sends :
      (settles : Settles env) (events : List Value) (keepalive : Bool) (s : State S)
      → BatchSends events s (send_batch env events keepalive s)
  unfolding envelope
  send_batch_sends settles events keepalive s =
      send_batch_with settles events keepalive _ s _
        (events-batch_body events (truthy s.anon_id) _ _) refl refl (ground arith)
