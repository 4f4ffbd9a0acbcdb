-- ===== src/Api/Interleaved/Chain.antt =====
-- `flush` of js/packages/core/src/api-integration.ts, called again and again: each call chains a
-- `drain` on `inflight`, the promise of the one before, which is fulfilled however that ended.
use iforevents_sdks.Prelude.{◌≡◌, Bool, true, false, ◌&&◌, List, [], ◌∷◌, ◌++◌, if◌then◌else◌}
use iforevents_sdks.Js.Value.{Value}
use iforevents_sdks.Errors.{ApiError}
use iforevents_sdks.Api.{QueuedEvent, Env, State}
use iforevents_sdks.Api.Queue.{
  is_empty, schedule, clear_timer, batch, take_batch, persist, drain_failed,
}
use iforevents_sdks.Api.Calls.{enqueue}
use iforevents_sdks.Api.Interleaved.{Line}

-- A call of `drain`: it waits for the promise before it, for the answer to a batch, or, once a batch
-- is accepted and the queue kept, to test the queue again; or it is over.
pub data Drain : Type 0 where
  queued looping settled : Drain
  sending : List Value → Drain

-- The instance, and the drains of its flushes in the order of the calls. `inflight` is the promise
-- of the last.
pub record Chain (S : Type 0) : Type 0 where
  pub state : State S
  pub drains : List Drain

abbrev pub is_settled : Drain → Bool
is_settled settled = true
is_settled d = false

abbrev pub is_queued : Drain → Bool
is_queued queued = true
is_queued d = false

-- Whether the promise that a drain is chained on is fulfilled, given the drains before it.
abbrev pub last_settled : List Drain → Bool
last_settled [] = true
last_settled (d ∷ []) = is_settled d
last_settled (d ∷ e ∷ ds) = last_settled (e ∷ ds)

module _ {S : Type 0} where
  -- The test of the `while` of `drain`, and the `splice`.
  abbrev pub loop_head : State S → State S × Drain
  loop_head s = if is_empty s.queue then (s, settled) else (take_batch s, sending (batch s))

  -- A drain goes on from a state, in its place among the others.
  abbrev pub goes_on : State S → (before after : List Drain) → Chain S
  goes_on s before after = record {
    state = (loop_head s).0;
    drains = before ++ (loop_head s).1 ∷ after;
  }

  module _ (env : Env S) where
    pub data Step : Chain S → Chain S → Type 0 where
      queues :
          (c : Chain S) (event : QueuedEvent)
          → Step c (record c { state = enqueue env event c.state })
      sets_timer : (c : Chain S) → Step c (record c { state = schedule c.state })
      clears_timer : (c : Chain S) → Step c (record c { state = clear_timer c.state })
      flushes :
          (c : Chain S)
          → Step c (record { state = clear_timer c.state; drains = c.drains ++ queued ∷ [] })
      begins :
          (c : Chain S) (before after : List Drain)
          → c.drains ≡ before ++ queued ∷ after
          → last_settled before ≡ true
          → Step c (goes_on c.state before after)
      succeeds :
          (c : Chain S) (before after : List Drain) (events : List Value)
          → c.drains ≡ before ++ sending events ∷ after
          → Step c (record { state = persist env c.state; drains = before ++ looping ∷ after })
      loops :
          (c : Chain S) (before after : List Drain)
          → c.drains ≡ before ++ looping ∷ after
          → Step c (goes_on c.state before after)
      fails :
          (c : Chain S) (before after : List Drain) (events : List Value) (e : ApiError)
          → c.drains ≡ before ++ sending events ∷ after
          → Step c (record {
            state = (drain_failed env events e c.state).1;
            drains = before ++ settled ∷ after;
          })

    -- What is reached from an instance that was never flushed.
    pub data Reach (s : State S) : Chain S → Type 0 where
      start : Reach s (record { state = s; drains = [] })
      further : {c d : Chain S} → Reach s c → Step c d → Reach s d

-- The drains are those that are over, one that has begun at most, and those that wait.
abbrev pub all_settled : List Drain → Bool
all_settled [] = true
all_settled (d ∷ ds) = is_settled d && all_settled ds

abbrev pub all_queued : List Drain → Bool
all_queued [] = true
all_queued (d ∷ ds) = is_queued d && all_queued ds

abbrev pub in_line : List Drain → Bool
in_line [] = true
in_line (settled ∷ ds) = in_line ds
in_line (d ∷ ds) = all_queued ds

-- The batches in flight, of all drains.
abbrev pub flights : List Drain → List Value
flights [] = []
flights (sending events ∷ ds) = events ++ flights ds
flights (d ∷ ds) = flights ds

abbrev pub any_sending : List Drain → Bool
any_sending [] = false
any_sending (sending events ∷ ds) = true
any_sending (d ∷ ds) = any_sending ds

-- The drains as the one batch that may be in flight.
abbrev pub line : {S : Type 0} → Chain S → Line S
line c = record { state = c.state; sending = any_sending c.drains; flight = flights c.drains }
