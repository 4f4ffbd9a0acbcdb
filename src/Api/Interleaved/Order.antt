-- ===== src/Api/Interleaved/Order.antt =====
-- The order in which events are accepted, whatever interleaves.
use iforevents_sdks.Prelude.{
  ◌≡◌, ap, subst, inl, inr, false, List, [], ◌∷◌, ◌++◌, append-nil, append_assoc, take-append-drop,
  Bool-cases, arith,
}
use iforevents_sdks.Js.Value.{Value, object}
use iforevents_sdks.Errors.{ApiError, retryable}
use iforevents_sdks.Api.{event_object, Env, State, max_batch}
use iforevents_sdks.Api.Queue.{schedule, clear_timer, take_batch, put_back, persist}
use iforevents_sdks.Api.Queue.Drains.{drain_failed_lem}
use iforevents_sdks.Api.Calls.{enqueue}
use iforevents_sdks.Api.Calls.Tracking.{enqueue_newest}
use iforevents_sdks.Api.Interleaved.{
  Line, Step, queues, sets_timer, clears_timer, takes, succeeds, fails,
}

-- What is left of a list once some of its elements are taken out.
pub data Thinned {A : Type 0} : List A → List A → Type 0 where
  done : Thinned [] []
  keep : {xs ys : List A} (x : A) → Thinned xs ys → Thinned (x ∷ xs) (x ∷ ys)
  leave : {xs ys : List A} (y : A) → Thinned xs ys → Thinned xs (y ∷ ys)

module _ {A : Type 0} where
  Thinned-refl : (xs : List A) → Thinned xs xs
  Thinned-refl [] = done
  Thinned-refl (x ∷ xs) = keep x (Thinned-refl xs)

  Thinned-trans : {ys zs : List A} → Thinned ys zs → {xs : List A} → Thinned xs ys → Thinned xs zs
  Thinned-trans done h = h
  Thinned-trans (leave z k) h = leave z (Thinned-trans k h)
  Thinned-trans (keep x k) (keep _ h) = keep x (Thinned-trans k h)
  Thinned-trans (keep x k) (leave _ h) = leave x (Thinned-trans k h)

  Thinned-append :
      {xs xs' ys ys' : List A} → Thinned xs xs' → Thinned ys ys' → Thinned (xs ++ ys) (xs' ++ ys')
  Thinned-append done k = k
  Thinned-append (keep x h) k = keep x (Thinned-append h k)
  Thinned-append (leave x h) k = leave x (Thinned-append h k)

  Thinned-nothing : (xs : List A) → Thinned [] xs
  Thinned-nothing [] = done
  Thinned-nothing (x ∷ xs) = leave x (Thinned-nothing xs)

  Thinned-suffix : (xs ys : List A) → Thinned ys (xs ++ ys)
  Thinned-suffix [] ys = Thinned-refl ys
  Thinned-suffix (x ∷ xs) ys = leave x (Thinned-suffix xs ys)

  Thinned-same : {xs ys : List A} → xs ≡ ys → Thinned xs ys
  Thinned-same {xs} e = subst (λ zs. Thinned xs zs) e (Thinned-refl xs)

module _ {S : Type 0} (env : Env S) where
  -- The events of a batch that is accepted in a step, and the event that is tracked in it.
  unfoldable pub accepted_by : {l m : Line S} → Step env l m → List Value
  accepted_by (succeeds l busy) = l.flight
  accepted_by step = []

  unfoldable pub tracked_by : {l m : Line S} → Step env l m → List Value
  tracked_by (queues l event) = object (event_object event) ∷ []
  tracked_by step = []

  -- What is reached from an instance with nothing in flight, with the events accepted and those
  -- tracked since, each in order.
  pub data Story (s : State S) : Line S → List Value → List Value → Type 0 where
    begins : Story s (record { state = s; sending = false; flight = [] }) [] []
    goes_on :
        {l m : Line S} {accepted tracked : List Value}
        → Story s l accepted tracked
        → (step : Step env l m)
        → Story s m (accepted ++ accepted_by step) (tracked ++ tracked_by step)

  put_back-Thinned :
      (events : List Value) (e : ApiError) (s : State S)
      → Thinned (put_back env.config events e s).queue (events ++ s.queue)
  unfolding put_back schedule
  put_back-Thinned events e s = elim (Bool-cases (retryable e)) [
    | inl transient ↦ elim (Bool-cases env.config.requeue_failed_events) [
      | inl requeue ↦ Thinned-same (ground arith)
      | inr lose ↦ Thinned-trans (Thinned-suffix events s.queue) (Thinned-same (ground arith))
    ]
    | inr permanent ↦
        Thinned-trans (Thinned-nothing (events ++ s.queue)) (Thinned-same (ground arith))
  ]

  schedule_keeps_queue : (s : State S) → (schedule s).queue ≡ s.queue
  unfolding schedule
  schedule_keeps_queue s = ground arith

  pub persist_keeps_queue : (s : State S) → (persist env s).queue ≡ s.queue
  unfolding persist
  persist_keeps_queue s = ground arith

  Step-Thinned :
      {l m : Line S} (step : Step env l m)
      → Thinned
          (accepted_by step ++ (m.flight ++ m.state.queue))
          ((l.flight ++ l.state.queue) ++ tracked_by step)
  unfolding accepted_by tracked_by clear_timer take_batch
  Step-Thinned (queues l event) =
      let newest = (enqueue_newest env event l.state).1 in
      rw (append_assoc l.flight) (
        Thinned-append (Thinned-refl l.flight) (
          subst (λ zs. Thinned (enqueue env event l.state).queue zs) newest
            (Thinned-suffix _ (enqueue env event l.state).queue)))
  Step-Thinned (sets_timer l) =
      rw append-nil (Thinned-same (ap (◌++◌ l.flight) (schedule_keeps_queue l.state)))
  Step-Thinned (clears_timer l) = rw append-nil (Thinned-refl (l.flight ++ l.state.queue))
  Step-Thinned (takes l idle some_left) =
      rw (append-nil, take-append-drop max_batch l.state.queue)
        (Thinned-suffix l.flight l.state.queue)
  Step-Thinned (succeeds l busy) =
      rw append-nil (Thinned-same (ap (◌++◌ l.flight) (persist_keeps_queue l.state)))
  Step-Thinned (fails l e busy) =
      let (_, _, same, _) = drain_failed_lem env l.flight e l.state in
      rw (append-nil, same) (put_back-Thinned l.flight e l.state)

  -- Whatever interleaves and is refused, the events accepted so far, then the batch in flight, then
  -- the queue are events of the first queue and those tracked since, in this order: none comes
  -- twice, and none overtakes another.
  pub Story-Thinned :
      {s : State S} {l : Line S} {accepted tracked : List Value}
      → Story s l accepted tracked
      → Thinned (accepted ++ (l.flight ++ l.state.queue)) (s.queue ++ tracked)
  Story-Thinned {s} begins = rw append-nil (Thinned-refl s.queue)
  Story-Thinned {s} (goes_on {l} {m} {accepted} {tracked} story step) =
      let told : List Value = tracked_by step in
      let before = Thinned-append (Story-Thinned story) (Thinned-refl told) in
      let now = Thinned-append (Thinned-refl accepted) (Step-Thinned step) in
      rw (append_assoc accepted, ← append_assoc s.queue tracked told)
        (Thinned-trans before (rw (append_assoc accepted (l.flight ++ l.state.queue) told) now))
