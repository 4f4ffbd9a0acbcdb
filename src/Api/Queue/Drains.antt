-- ===== src/Api/Queue/Drains.antt =====
-- What a flush does to the queue.
use iforevents_sdks.Prelude.{
  ℕ, zero, suc, ◌<◌, ◌≡◌, refl, sym, ◌∙◌, ap, inl, inr, Bool, true, false, List, [], ◌∷◌, ◌++◌,
  append-nil, append_assoc, length, drop, take-append-drop, length-drop, Bool-cases, arith,
}
use iforevents_sdks.Js.Value.{Value}
use iforevents_sdks.Errors.{ApiError, api, retryable}
use iforevents_sdks.Exec.{Outcome, ok, thrown, Ends}
use iforevents_sdks.Api.{Env, State, max_batch}
use iforevents_sdks.Api.Request.{refused}
use iforevents_sdks.Api.Request.Attempts.{verdict}
use iforevents_sdks.Api.Request.Ends.{Settles}
use iforevents_sdks.Api.Queue.{
  is_empty, clear_timer, batch, take_batch, put_back, drain_failed, send_batch, drain, flush,
}
use iforevents_sdks.Api.Queue.Delivery.{all_accepted, accepted_events, send_batch_sends}

is_empty-nil : (q : List Value) → is_empty q ≡ true → q ≡ []
is_empty-nil [] e = refl
is_empty-nil (v ∷ q) e = cc

pub is_empty-length : (q : List Value) → is_empty q ≡ false → 0 < length q
is_empty-length [] e = cc
is_empty-length (v ∷ q) e = omega arith

module _ {S : Type 0} (env : Env S) where
  pub drain_empty :
      (fuel : ℕ) (keepalive : Bool) (s : State S)
      → is_empty s.queue ≡ true
      → drain env (suc fuel) keepalive s ≡ (ok tt, s)
  unfolding drain
  drain_empty fuel keepalive s e = ground arith

  pub drain_sent :
      (fuel : ℕ) (keepalive : Bool) (s : State S)
      → is_empty s.queue ≡ false
      → (send_batch env (batch s) keepalive (take_batch s)).0 ≡ ok tt
      → drain env (suc fuel) keepalive s
        ≡ drain env fuel keepalive (send_batch env (batch s) keepalive (take_batch s)).1
  unfolding drain
  drain_sent fuel keepalive s e r = ground arith

  pub drain_refused :
      (fuel : ℕ) (keepalive : Bool) (s : State S) (x : ApiError)
      → is_empty s.queue ≡ false
      → (send_batch env (batch s) keepalive (take_batch s)).0 ≡ thrown (api x)
      → drain env (suc fuel) keepalive s
        ≡ drain_failed env (batch s) x (send_batch env (batch s) keepalive (take_batch s)).1
  unfolding drain
  drain_refused fuel keepalive s x e r = ground arith

  -- What is left of `rest`, the part of the queue that was not accepted: nothing, since all was;
  -- all of it, after a transient refusal; all but its first batch, where refused batches are not
  -- put back; nothing, after a permanent refusal.
  pub data Leftover (rest left : List Value) : Type 0 where
    none_left : rest ≡ [] → left ≡ [] → Leftover rest left
    put_back_whole :
        (n : ℕ) (e : ApiError)
        → verdict env n ≡ refused e
        → retryable e ≡ true
        → env.config.requeue_failed_events ≡ true
        → left ≡ rest
        → Leftover rest left
    batch_lost :
        (n : ℕ) (e : ApiError)
        → verdict env n ≡ refused e
        → retryable e ≡ true
        → env.config.requeue_failed_events ≡ false
        → left ≡ drop max_batch rest
        → Leftover rest left
    all_lost :
        (n : ℕ) (e : ApiError)
        → verdict env n ≡ refused e
        → retryable e ≡ false
        → left ≡ []
        → Leftover rest left

  pub record SameIdentity (s t : State S) : Type 0 where
    pub user_id : t.user_id ≡ s.user_id
    pub anon_id : t.anon_id ≡ s.anon_id
    pub identified : t.identified ≡ s.identified

  -- The call ended; the api accepted a first part of the queue, in order and once, and the queue
  -- is what `Leftover` says of the rest.
  pub record Accounts (s : State S) (r : Outcome (Unit {0})) (t : State S) : Type 0 where
    pub ends : Ends r
    pub first : List Value
    pub rest : List Value
    pub split : s.queue ≡ first ++ rest
    pub accepted : all_accepted env t ≡ all_accepted env s ++ first
    pub left : Leftover rest t.queue
    pub identity : SameIdentity s t

  -- What `drain_failed` does to the state, field by field.
  pub drain_failed_lem :
      (events : List Value) (e : ApiError) (s : State S)
      → Ends (drain_failed env events e s).0
        × ((drain_failed env events e s).1.sent ≡ s.sent)
        × ((drain_failed env events e s).1.queue ≡ (put_back env.config events e s).queue)
        × SameIdentity s (drain_failed env events e s).1
  unfolding drain_failed
  drain_failed_lem events e s = ground arith

  put_back-Leftover :
      (events : List Value) (n : ℕ) (e : ApiError) (s : State S)
      → verdict env n ≡ refused e
      → drop max_batch (events ++ s.queue) ≡ s.queue
      → Leftover (events ++ s.queue) (put_back env.config events e s).queue
  unfolding put_back
  put_back-Leftover events n e s v d = elim (Bool-cases (retryable e)) [
    | inl transient ↦ elim (Bool-cases env.config.requeue_failed_events) [
      | inl requeue ↦ put_back_whole n e v transient requeue (ground arith)
      | inr lose ↦ batch_lost n e v transient lose (ground arith)
    ]
    | inr permanent ↦ all_lost n e v permanent (ground arith)
  ]

  SameIdentity-trans : {s t u : State S} → SameIdentity s t → SameIdentity t u → SameIdentity s u
  SameIdentity-trans p q = record {
    user_id = q.user_id ∙ p.user_id;
    anon_id = q.anon_id ∙ p.anon_id;
    identified = q.identified ∙ p.identified;
  }

  -- A refused batch ends the drain.
  refused-Accounts :
      (s t : State S) (n : ℕ) (e : ApiError)
      → verdict env n ≡ refused e
      → all_accepted env t ≡ all_accepted env s
      → t.queue ≡ drop max_batch s.queue
      → SameIdentity s t
      → Accounts s (drain_failed env (batch s) e t).0 (drain_failed env (batch s) e t).1
  refused-Accounts s t n e v same left identity =
      let (ends, sent, queue, kept) = drain_failed_lem (batch s) e t in
      let whole : batch s ++ t.queue ≡ s.queue = rw left (take-append-drop max_batch s.queue) in
      record {
        ends = ends;
        first = [];
        rest = s.queue;
        split = refl;
        accepted = ap (accepted_events env 0) sent ∙ same ∙ sym (append-nil _);
        left = rw queue (rw whole at (put_back-Leftover (batch s) n e t v (rw whole (sym left))));
        identity = SameIdentity-trans identity kept;
      }

  -- An accepted batch, and then the rest of the drain.
  sent-Accounts :
      (s t : State S) (r : Outcome (Unit {0})) (u : State S)
      → all_accepted env t ≡ all_accepted env s ++ batch s
      → t.queue ≡ drop max_batch s.queue
      → SameIdentity s t
      → Accounts t r u
      → Accounts s r u
  sent-Accounts s t r u more left identity a = record {
    ends = a.ends;
    first = batch s ++ a.first;
    rest = a.rest;
    split =
        sym (take-append-drop max_batch s.queue)
        ∙ ap (◌++◌ (batch s)) (sym left ∙ a.split)
        ∙ sym (append_assoc (batch s) a.first a.rest);
    accepted =
        a.accepted
        ∙ ap (λ (xs : List Value). xs ++ a.first) more
        ∙ append_assoc (all_accepted env s) (batch s) a.first;
    left = a.left;
    identity = SameIdentity-trans identity a.identity;
  }

  drain-Accounts :
      (settles : Settles env) (fuel : ℕ) (keepalive : Bool) (s : State S)
      → length s.queue < fuel
      → Accounts s (drain env fuel keepalive s).0 (drain env fuel keepalive s).1
  unfolding take_batch
  drain-Accounts settles zero keepalive s h = absurd (omega arith)
  drain-Accounts settles (suc fuel) keepalive s h = elim (Bool-cases (is_empty s.queue)) [
    | inl done ↦ rw (drain_empty fuel keepalive s done) (record {
      ends = tt;
      first = [];
      rest = s.queue;
      split = refl;
      accepted = sym (append-nil _);
      left = none_left (is_empty-nil s.queue done) (is_empty-nil s.queue done);
      identity = record { user_id = refl; anon_id = refl; identified = refl };
    })
    | inr more ↦ elim (send_batch_sends env settles (batch s) keepalive (take_batch s)) [
      | inl (r, accepted, kept) ↦ rw (drain_sent fuel keepalive s more r) (
          sent-Accounts s _ _ _ accepted kept.queue
            (record {
              user_id = kept.user_id;
              anon_id = kept.anon_id;
              identified = kept.identified;
            })
            (drain-Accounts settles fuel keepalive _ (
              rw kept.queue
                (omega (arith, length-drop max_batch s.queue, is_empty-length s.queue more)))))
      | inr (e, n, r, v, same, kept) ↦ rw (drain_refused fuel keepalive s e more r) (
          refused-Accounts s _ n e v same kept.queue (record {
            user_id = kept.user_id;
            anon_id = kept.anon_id;
            identified = kept.identified;
          }))
    ]
  ]

  -- Where `maxRetries` is a natural number, and every fetch and the body of every response settles,
  -- a flush ends; the api has then accepted a first part of the queue, in order and once, the rest
  -- of the queue is as `Leftover` says, and the identity is unchanged.
  pub flush-Accounts :
      (settles : Settles env) (keepalive : Bool) (s : State S)
      → Accounts s (flush env keepalive s).0 (flush env keepalive s).1
  unfolding flush clear_timer
  flush-Accounts settles keepalive s =
      let a =
        drain-Accounts settles (suc (length s.queue)) keepalive (clear_timer s) (omega arith) in
      record {
        ends = a.ends;
        first = a.first;
        rest = a.rest;
        split = a.split;
        accepted = a.accepted;
        left = a.left;
        identity = record {
          user_id = a.identity.user_id;
          anon_id = a.identity.anon_id;
          identified = a.identity.identified;
        };
      }
