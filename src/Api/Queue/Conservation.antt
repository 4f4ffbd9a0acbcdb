-- ===== src/Api/Queue/Conservation.antt =====
-- What a flush keeps of the events, and what it can lose.
use iforevents_sdks.Prelude.{
  ℕ, ◌≤◌, ◌≡◌, sym, ◌∙◌, ap, Bool, true, false, List, [], ◌++◌, append_assoc, length, take,
  take-append-drop, length-take, arith,
}
use iforevents_sdks.Js.Value.{Value}
use iforevents_sdks.Errors.{ApiError, retryable}
use iforevents_sdks.Api.{Env, State, max_batch}
use iforevents_sdks.Api.Request.{refused}
use iforevents_sdks.Api.Request.Attempts.{verdict}
use iforevents_sdks.Api.Request.Ends.{Settles}
use iforevents_sdks.Api.Queue.{flush}
use iforevents_sdks.Api.Queue.Delivery.{all_accepted}
use iforevents_sdks.Api.Queue.Drains.{
  Leftover, none_left, put_back_whole, batch_lost, all_lost, flush-Accounts,
}

module _ {S : Type 0} (env : Env S) where
  abbrev pub NeverPermanent : Type 0
  NeverPermanent = (n : ℕ) (e : ApiError) → verdict env n ≡ refused e → retryable e ≡ true

  Leftover-whole :
      {rest left : List Value}
      → env.config.requeue_failed_events ≡ true
      → NeverPermanent
      → Leftover env rest left
      → left ≡ rest
  Leftover-whole requeue np (none_left e f) = f ∙ sym e
  Leftover-whole requeue np (put_back_whole n e v r q l) = l
  Leftover-whole requeue np (batch_lost n e v r q l) = cc
  Leftover-whole requeue np (all_lost n e v r l) = cc (np n e v)

  -- While every fetch and the body of every response settles, refused batches are put back and no
  -- refusal is permanent, a flush loses and doubles no event: what the api has accepted, followed
  -- by the queue, stays the same sequence.
  pub flush_conserves :
      (settles : Settles env) (keepalive : Bool) (s : State S)
      → env.config.requeue_failed_events ≡ true
      → NeverPermanent
      → all_accepted env (flush env keepalive s).1 ++ (flush env keepalive s).1.queue
        ≡ all_accepted env s ++ s.queue
  flush_conserves settles keepalive s requeue np =
      let a = flush-Accounts env settles keepalive s in
      rw (a.accepted, Leftover-whole requeue np a.left)
        (append_assoc (all_accepted env s) a.first a.rest
          ∙ ap (◌++◌ (all_accepted env s)) (sym a.split))

  Leftover-lost :
      {rest left : List Value}
      → env.config.requeue_failed_events ≡ false
      → NeverPermanent
      → Leftover env rest left
      → (lost : List Value) × (rest ≡ lost ++ left) × (length lost ≤ max_batch)
  Leftover-lost lose np (none_left e f) = ([], e ∙ sym f, omega arith)
  Leftover-lost lose np (put_back_whole n e v r q l) = cc
  Leftover-lost {rest} lose np (batch_lost n e v r q l) = (
    take max_batch rest,
    rw l (sym (take-append-drop max_batch rest)),
    omega (arith, length-take max_batch rest),
  )
  Leftover-lost lose np (all_lost n e v r l) = cc (np n e v)

  -- Where every fetch and its body settle, refused batches are not put back and no refusal is
  -- permanent, a flush loses one batch at most, of 500 events or fewer: the queue before it was the
  -- accepted events, those lost and the queue after it, in this order.
  pub flush_losses :
      (settles : Settles env) (keepalive : Bool) (s : State S)
      → env.config.requeue_failed_events ≡ false
      → NeverPermanent
      → (first : List Value) × (lost : List Value) × (s.queue
          ≡ first ++ (lost ++ (flush env keepalive s).1.queue))
        × (all_accepted env (flush env keepalive s).1 ≡ all_accepted env s ++ first)
        × (length lost ≤ max_batch)
  flush_losses settles keepalive s lose np =
      let a = flush-Accounts env settles keepalive s in
      let (lost, e, h) = Leftover-lost lose np a.left in
      (a.first, lost, rw (← e) a.split, a.accepted, h)
