-- ===== src/Api/Queue/Timed.antt =====
-- The timer, over the steps of a flush.
use iforevents_sdks.Prelude.{
  ℕ, zero, suc, ◌≡◌, inl, inr, Bool, true, ◌||◌, List, ◌++◌, length, Bool-cases, arith,
}
use iforevents_sdks.Js.Value.{Value}
use iforevents_sdks.Errors.{ApiError, retryable}
use iforevents_sdks.Exec.{Ends}
use iforevents_sdks.Api.{Env, State}
use iforevents_sdks.Api.Request.Ends.{Settles}
use iforevents_sdks.Api.Queue.{
  is_empty, schedule, clear_timer, batch, take_batch, put_back, persist, report, drain_failed,
  drain, flush,
}
use iforevents_sdks.Api.Queue.Delivery.{send_batch_sends}
use iforevents_sdks.Api.Queue.Drains.{drain_empty, drain_sent, drain_refused, flush-Accounts}

-- The queue is empty, or the timer is set that sends it.
abbrev pub IsTimed : {S : Type 0} → State S → Type 0
IsTimed s = (is_empty s.queue || s.timer) ≡ true

module _ {S : Type 0} (env : Env S) where
  pub schedule-IsTimed : (s : State S) → IsTimed (schedule s)
  unfolding schedule
  schedule-IsTimed s = ground arith

  module _ (requeue : env.config.requeue_failed_events ≡ true) where
    put_back-IsTimed :
        (events : List Value) (e : ApiError) (s : State S)
        → IsTimed (put_back env.config events e s)
    unfolding put_back
    put_back-IsTimed events e s = elim (Bool-cases (retryable e)) [
      | inl transient ↦
          let timed = schedule-IsTimed (record s { queue = events ++ s.queue }) in ground arith
      | inr permanent ↦ ground arith
    ]

    drain_failed-IsTimed :
        (events : List Value) (e : ApiError) (s : State S) → IsTimed (drain_failed env events e s).1
    unfolding drain_failed persist report
    drain_failed-IsTimed events e s = let timed = put_back-IsTimed events e s in ground arith

    drain-IsTimed :
        (settles : Settles env) (fuel : ℕ) (keepalive : Bool) (s : State S)
        → Ends (drain env fuel keepalive s).0
        → IsTimed (drain env fuel keepalive s).1
    drain-IsTimed settles zero keepalive s ends = absurd (unfold drain in ends)
    drain-IsTimed settles (suc fuel) keepalive s ends = elim (Bool-cases (is_empty s.queue)) [
      | inl done ↦ rw (drain_empty env fuel keepalive s done) (ground arith)
      | inr more ↦ elim (send_batch_sends env settles (batch s) keepalive (take_batch s)) [
        | inl (r, _, _) ↦
            let on = drain_sent env fuel keepalive s more r in
            rw on (drain-IsTimed settles fuel keepalive _ (rw on at ends))
        | inr (e, n, r, _, _, _) ↦
            rw (drain_refused env fuel keepalive s e more r) (drain_failed-IsTimed (batch s) e _)
      ]
    ]

    -- Where every fetch and its body settle, a flush leaves an empty queue, or a timer.
    pub flush-IsTimed :
        (settles : Settles env) (keepalive : Bool) (s : State S) → IsTimed (flush env keepalive s).1
    unfolding flush clear_timer
    flush-IsTimed settles keepalive s =
        drain-IsTimed settles (suc (length s.queue)) keepalive (clear_timer s)
          (flush-Accounts env settles keepalive s).ends
