-- ===== src/Api/Interleaved.antt =====
-- Calls that interleave: what happens to the queue while a batch is in flight. The drains are
-- chained on `inflight`, so one batch is in flight at most; between its leaving and its answer,
-- events are tracked (the push, the cap and the copy that is kept), and the timer is set or cleared.
pub mod Order
pub mod Crash
pub mod Chain
pub mod Exclusion
pub mod Refines
pub mod Sequential
use iforevents_sdks.Prelude.{
  ◌+◌, ◌≤◌, ◌≡◌, Bool, true, false, List, [], length, length-take, length-drop, length-append,
  arith,
}
use iforevents_sdks.Js.Value.{Value}
use iforevents_sdks.Errors.{ApiError}
use iforevents_sdks.Api.{QueuedEvent, Env, State, max_batch}
use iforevents_sdks.Api.Queue.{
  is_empty, schedule, clear_timer, batch, take_batch, put_back, persist, drain_failed,
}
use iforevents_sdks.Api.Queue.Drains.{drain_failed_lem}
use iforevents_sdks.Api.Calls.{enqueue}
use iforevents_sdks.Api.Calls.Tracking.{enqueue_newest}

-- The instance, and the batch of the drain under way, if there is one.
pub record Line (S : Type 0) : Type 0 where
  pub state : State S
  pub sending : Bool
  pub flight : List Value

module _ {S : Type 0} (env : Env S) where
  pub data Step : Line S → Line S → Type 0 where
    queues :
        (l : Line S) (event : QueuedEvent) → Step l (record l { state = enqueue env event l.state })
    sets_timer : (l : Line S) → Step l (record l { state = schedule l.state })
    clears_timer : (l : Line S) → Step l (record l { state = clear_timer l.state })
    takes :
        (l : Line S)
        → l.sending ≡ false
        → is_empty l.state.queue ≡ false
        → Step l (record { state = take_batch l.state; sending = true; flight = batch l.state })
    succeeds :
        (l : Line S)
        → l.sending ≡ true
        → Step l (record { state = persist env l.state; sending = false; flight = [] })
    fails :
        (l : Line S) (e : ApiError)
        → l.sending ≡ true
        → Step l (record {
          state = (drain_failed env l.flight e l.state).1;
          sending = false;
          flight = [];
        })

  -- What is reached from an instance with nothing in flight.
  pub data Reach (s : State S) : Line S → Type 0 where
    start : Reach s (record { state = s; sending = false; flight = [] })
    further : {l m : Line S} → Reach s l → Step l m → Reach s m

  -- The events in flight are one batch at most, and with those that wait they are at most a batch
  -- more than the cap.
  pub record IsBounded (l : Line S) : Type 0 where
    pub one_batch : length l.flight ≤ max_batch
    pub in_all : length l.flight + length l.state.queue ≤ env.config.max_queue_size + max_batch

  length-schedule : (s : State S) → length (schedule s).queue ≡ length s.queue
  unfolding schedule
  length-schedule s = ground arith

  length-persist : (s : State S) → length (persist env s).queue ≡ length s.queue
  unfolding persist
  length-persist s = ground arith

  length-put_back :
      (events : List Value) (e : ApiError) (s : State S)
      → length (put_back env.config events e s).queue ≤ length events + length s.queue
  unfolding put_back schedule
  length-put_back events e s = ground (arith, length-append events s.queue)

  Step-IsBounded : {l m : Line S} → Step l m → IsBounded l → IsBounded m
  unfolding clear_timer take_batch
  Step-IsBounded (queues l event) h =
      let fits = (enqueue_newest env event l.state).0 in
      let batch = h.one_batch in record { one_batch = batch; in_all = omega arith }
  Step-IsBounded (sets_timer l) h =
      let same = length-schedule l.state in
      let all = h.in_all in record { one_batch = h.one_batch; in_all = omega arith }
  Step-IsBounded (clears_timer l) h = record { one_batch = h.one_batch; in_all = h.in_all }
  Step-IsBounded (takes l idle some_left) h =
      let taken = length-take max_batch l.state.queue in
      let left = length-drop max_batch l.state.queue in
      let all = h.in_all in record { one_batch = omega arith; in_all = omega arith }
  Step-IsBounded (succeeds l busy) h =
      let same = length-persist l.state in
      let all = h.in_all in record { one_batch = omega arith; in_all = omega arith }
  Step-IsBounded (fails l e busy) h =
      let (_, _, same, _) = drain_failed_lem env l.flight e l.state in
      let back = length-put_back l.flight e l.state in
      let all = h.in_all in record { one_batch = omega arith; in_all = rw same (omega arith) }

  -- However tracked events, timers, sent batches and their answers interleave, from an instance
  -- whose queue is within `maxQueueSize` the events in flight are one batch at most, and with those
  -- in the queue they are never more than `maxQueueSize` and 500.
  pub Reach-IsBounded :
      {s : State S} {l : Line S}
      → length s.queue ≤ env.config.max_queue_size
      → Reach s l
      → IsBounded l
  Reach-IsBounded h start = record { one_batch = omega arith; in_all = omega arith }
  Reach-IsBounded h (further r step) = Step-IsBounded step (Reach-IsBounded h r)
