-- ===== src/Api/Interleaved/Crash.antt =====
-- What the store keeps of the queue while a batch is in flight, and what a run that ends there
-- leaves to the next.
use iforevents_sdks.Prelude.{◌≡◌, refl, ◌⊎◌, inl, inr, true, ◌++◌, take-append-drop, arith}
use iforevents_sdks.Storage.{IsLawful}
use iforevents_sdks.Api.{Env, State, max_batch, queue_key}
use iforevents_sdks.Api.Queue.{schedule, clear_timer, take_batch}
use iforevents_sdks.Api.Calls.{enqueue}
use iforevents_sdks.Api.Calls.Visitor.{stored}
use iforevents_sdks.Api.Calls.Persistence.{
  queue_text, IsPersisted, persist-IsPersisted, drain_failed-IsPersisted,
}
use iforevents_sdks.Api.Interleaved.{
  Line, Step, queues, sets_timer, clears_timer, takes, succeeds, fails, Reach, start, further,
}

module _ {S : Type 0} (env : Env S) where
  -- The store holds the queue, or, only while a batch is in flight, the batch and the queue.
  abbrev pub Covers : Line S → Type 0
  Covers l =
      IsPersisted env l.state
      ⊎ ((l.sending ≡ true)
          × (stored env queue_key l.state ≡ queue_text env (l.flight ++ l.state.queue)))

module _ {S : Type 0} (env : Env S) (lawful : IsLawful env.storage)
    (on : env.config.persist_queue ≡ true) where
  schedule_kept :
      (s : State S)
      → (stored env queue_key (schedule s) ≡ stored env queue_key s)
        × ((schedule s).queue ≡ s.queue)
  unfolding schedule
  schedule_kept s = ground arith

  Step-Covers : {l m : Line S} → Step env l m → Covers env l → Covers env m
  unfolding clear_timer take_batch enqueue
  Step-Covers (queues l event) h = inl (persist-IsPersisted env lawful on _)
  Step-Covers (sets_timer l) (inl h) =
      let (text, queue) = schedule_kept l.state in inl (rw (text, queue) h)
  Step-Covers (sets_timer l) (inr (busy, h)) =
      let (text, queue) = schedule_kept l.state in inr (busy, rw (text, queue) h)
  Step-Covers (clears_timer l) h = h
  Step-Covers (takes l idle some_left) (inl h) =
      inr (refl, rw (take-append-drop max_batch l.state.queue) h)
  Step-Covers (takes l idle some_left) (inr (busy, h)) = cc
  Step-Covers (succeeds l busy) h = inl (persist-IsPersisted env lawful on l.state)
  Step-Covers (fails l e busy) h = inl (drain_failed-IsPersisted env lawful on l.flight e l.state)

  -- With `persistQueue`, if the store holds the queue when nothing is in flight, then whatever
  -- interleaves it holds the queue, or the batch in flight before the queue.
  pub Reach-Covers : {s : State S} {l : Line S} → IsPersisted env s → Reach env s l → Covers env l
  Reach-Covers h start = inl h
  Reach-Covers h (further r step) = Step-Covers step (Reach-Covers h r)
