-- ===== src/Api/Queue/Stalls.antt =====
-- A flush whose response never comes.
use iforevents_sdks.Prelude.{ℕ, suc, ◌+◌, ◌≤◌, ◌≡◌, refl, Bool, false, List, length, drop, arith}
use iforevents_sdks.Js.Value.{Value}
use iforevents_sdks.Exec.{out_of_fuel}
use iforevents_sdks.Api.{Env, State, max_batch}
use iforevents_sdks.Api.Request.{unanswered, envelope}
use iforevents_sdks.Api.Request.Attempts.{verdict, Transient, request_stalls}
use iforevents_sdks.Api.Queue.{is_empty, clear_timer, batch, take_batch, send_batch, drain, flush}

module _ {S : Type 0} (env : Env S) (keepalive : Bool) where
  drain_stalls :
      (fuel : ℕ) (s : State S)
      → is_empty s.queue ≡ false
      → (send_batch env (batch s) keepalive (take_batch s)).0 ≡ out_of_fuel
      → drain env (suc fuel) keepalive s
        ≡ (out_of_fuel, (send_batch env (batch s) keepalive (take_batch s)).1)
  unfolding drain
  drain_stalls fuel s e r = ground arith

  module _ (k : ℕ) (le : k ≤ env.config.max_retries) where
    send_batch_stalls :
        (events : List Value) (s : State S)
        → Transient env (length s.sent) k
        → verdict env (length s.sent + k) ≡ unanswered
        → ((send_batch env events keepalive s).0 ≡ out_of_fuel)
          × ((send_batch env events keepalive s).1.queue ≡ s.queue)
          × ((send_batch env events keepalive s).1.timer ≡ s.timer)
    unfolding send_batch envelope
    send_batch_stalls events s t v =
        rw
          (request_stalls env "/v1/events/batch" _ keepalive (record s { built = s.built + 1 }) k le
            t v)
          (refl, refl, refl)

    -- Where events wait, and after `k` retried refusals, with `k` within the retries, comes an
    -- answer that never settles, a flush never ends: the batch that it has taken, of 500 events or
    -- fewer, is no longer in the queue, the events behind it stay, and no timer is set to send
    -- them.
    pub flush_stalls :
        (s : State S)
        → is_empty s.queue ≡ false
        → Transient env (length s.sent) k
        → verdict env (length s.sent + k) ≡ unanswered
        → ((flush env keepalive s).0 ≡ out_of_fuel)
          × ((flush env keepalive s).1.queue ≡ drop max_batch s.queue)
          × ((flush env keepalive s).1.timer ≡ false)
    unfolding flush clear_timer take_batch
    flush_stalls s more t v =
        let (never, queue, timer) = send_batch_stalls (batch s) (take_batch (clear_timer s)) t v in
        rw (drain_stalls (length s.queue) (clear_timer s) more never) (refl, queue, timer)
