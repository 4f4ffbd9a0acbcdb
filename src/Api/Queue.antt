-- ===== src/Api/Queue.antt =====
-- The queue of the api integration: how it is kept, sent and put back.
pub mod Delivery
pub mod Drains
pub mod Posts
pub mod Conservation
pub mod Stalls
pub mod Timed
use iforevents_sdks.Prelude.{
  ℕ, zero, suc, String, Bool, true, false, not, ◌&&◌, ◌||◌, ◌⊎◌, inl, inr, Option, none, some, List,
  [], ◌∷◌, ◌++◌, length, take, drop, if◌then◌else◌,
}
use iforevents_sdks.Js.Value.{Value, array, object, Properties, empty, entry, items, assign}
use iforevents_sdks.Errors.{Error, api, other, ApiError, retryable, network_error}
use iforevents_sdks.Exec.{
  Exec, ok, exhausted, ◌>>=◌, ◌>>◌, pure, throw, gets, modify, attempt, background,
}
use iforevents_sdks.Api.{Config, Env, State, max_batch, queue_key}
use iforevents_sdks.Api.Request.{envelope, request}

abbrev pub is_empty : List Value → Bool
is_empty [] = true
is_empty (v ∷ vs) = false

-- `error instanceof IForeventsAPIError ? error : new IForeventsAPIError(String(error))`
abbrev pub as_api_error : Error → ApiError
as_api_error (api e) = e
as_api_error (other text) = network_error text

module _ {S : Type 0} where
  -- `schedule`: whether the timer is set; `timer_fires` is its callback.
  unfoldable pub schedule : State S → State S
  schedule s = if s.timer || is_empty s.queue then s else record s { timer = true }

  unfoldable pub clear_timer : State S → State S
  clear_timer s = record s { timer = false }

  -- `report`
  unfoldable pub report : Error → State S → State S
  report (api e) s = record s { on_error = s.on_error ++ e ∷ [] }
  report (other text) s = s

  -- `this.queue.splice(0, MAX_BATCH)`: what is taken, and what stays.
  abbrev pub batch : State S → List Value
  batch s = take max_batch s.queue

  unfoldable pub take_batch : State S → State S
  take_batch s = record s { queue = drop max_batch s.queue }

  -- What the `catch` of `drain` does to the queue.
  unfoldable pub put_back : Config → List Value → ApiError → State S → State S
  unfolding schedule
  put_back config events e s =
      if retryable e && config.requeue_failed_events
      then schedule (record s { queue = events ++ s.queue })
      else if not (retryable e)
      then record s { queue = [] }
      else s

  module _ (env : Env S) where
    -- `persist`
    unfoldable pub persist : State S → State S
    persist s =
        if env.config.persist_queue
        then record s {
          store =
              if is_empty s.queue
              then env.storage.remove queue_key s.store
              else env.storage.set queue_key (env.runtime.stringify (array (items s.queue)))
                  s.store;
        }
        else s

    -- The `catch` of `drain`.
    unfoldable pub drain_failed : List Value → ApiError → Exec (State S) (Unit {0})
    unfolding put_back persist report
    drain_failed events e = do
      modify (put_back env.config events e)
      modify persist
      modify (report (api e))
      if env.config.throw_on_error then throw (api e) else pure tt

    -- `{ events, ...(await this.envelope()) }`
    abbrev pub batch_body : List Value → Properties → Value
    batch_body events extra = object (assign (entry "events" (array (items events)) empty) extra)

    -- The `try` of `drain`.
    unfoldable pub send_batch : List Value → Bool → Exec (State S) (Unit {0})
    send_batch events keepalive = do
      extra ← envelope env
      json ← request env "/v1/events/batch" (batch_body events extra) keepalive
      modify persist

    unfoldable pub drain : ℕ → Bool → Exec (State S) (Unit {0})
    drain zero keepalive = exhausted
    drain (suc fuel) keepalive = do
      queue ← gets λ s. s.queue
      if is_empty queue then pure tt else do
        events ← gets batch
        modify take_batch
        result ← attempt (send_batch events keepalive)
        elim result [
          | inl done ↦ drain fuel keepalive
          | inr error ↦ drain_failed events (as_api_error error)
        ]

    -- `flush`, when no earlier drain is under way; each round takes an event at least.
    unfoldable pub flush : Bool → Exec (State S) (Unit {0})
    flush keepalive = do
      modify clear_timer
      queue ← gets λ s. s.queue
      drain (suc (length queue)) keepalive

    -- The callback of the timer.
    unfoldable pub timer_fires : Exec (State S) (Unit {0})
    timer_fires = do modify clear_timer; background (flush false)
