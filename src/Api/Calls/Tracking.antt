-- ===== src/Api/Calls/Tracking.antt =====
-- What `track` does in batched mode.
use iforevents_sdks.Prelude.{
  ℕ, ◌+◌, ◌-◌, ◌≤◌, ◌<◌, ◌≡◌, refl, sym, ◌∙◌, ap, true, false, List, [], ◌∷◌, ◌++◌, none,
  append_assoc, length, length-append, length-drop, take, take-append-drop, ltb, leb, arith,
  Bool-cases, inl, inr,
}
use mathlib.Core.Path.{ap₂}
use iforevents_sdks.Js.Number.{Number, of_ℕ, number_le}
use iforevents_sdks.Js.Value.{Value, object}
use iforevents_sdks.Exec.{ok, background}
use iforevents_sdks.Types.{TrackEvent}
use iforevents_sdks.Api.{Env, State, QueuedEvent, event_object}
use iforevents_sdks.Api.Queue.{schedule, persist, flush}
use iforevents_sdks.Api.Queue.Delivery.{all_accepted, accepted_events}
use iforevents_sdks.Api.Request.Ends.{Settles}
use iforevents_sdks.Api.Queue.Conservation.{NeverPermanent, flush_conserves}
use iforevents_sdks.Api.Calls.{newest, draw, enqueue, queued_event, track}

newest-length : (max : ℕ) (q : List Value) → length (newest max q) ≤ max
newest-length max q = ground (arith, length-drop (length q - max) q)

newest-suffix : (max : ℕ) (q : List Value) → take (length q - max) q ++ newest max q ≡ q
newest-suffix max q = elim (Bool-cases (ltb max (length q))) [
  | inl over ↦ rw over (take-append-drop (length q - max) q)
  | inr fits ↦ let none_over : length q - max ≡ 0 = ground arith in rw (fits, none_over)
]

number_le-of_ℕ : (a b : ℕ) → number_le (of_ℕ a) (of_ℕ b) ≡ leb a b
unfolding number_le
number_le-of_ℕ a b = ground arith

below_size : (size : Number) (n k : ℕ) → size ≡ of_ℕ n → k < n → number_le size (of_ℕ k) ≡ false
below_size size n k e h = rw (e, number_le-of_ℕ n k) (ground arith)

module _ {S : Type 0} (env : Env S) where
  -- The object that `track` queues for an event.
  abbrev pub tracked : TrackEvent → State S → Value
  tracked event s = object (event_object (queued_event env event (env.random s.drawn)))

  queue-persist : (s : State S) → (persist env s).queue ≡ s.queue
  unfolding persist
  queue-persist s = ground arith

  sent-persist : (s : State S) → (persist env s).sent ≡ s.sent
  unfolding persist
  sent-persist s = ground arith

  timer-persist : (s : State S) → (persist env s).timer ≡ s.timer
  unfolding persist
  timer-persist s = ground arith

  -- However many events are waiting, once one more is queued there are at most `maxQueueSize`,
  -- and they are the newest: what precedes them in the old queue and the event is gone.
  pub enqueue_newest :
      (event : QueuedEvent) (s : State S)
      → let old = s.queue ++ object (event_object event) ∷ [] in
        (length (enqueue env event s).queue ≤ env.config.max_queue_size)
        × (take (length old - env.config.max_queue_size) old ++ (enqueue env event s).queue ≡ old)
  unfolding enqueue
  enqueue_newest event s =
      rw queue-persist
        (newest-length env.config.max_queue_size _, newest-suffix env.config.max_queue_size _)

  queue-enqueue_room :
      (event : QueuedEvent) (s : State S)
      → length s.queue + 1 ≤ env.config.max_queue_size
      → (enqueue env event s).queue ≡ s.queue ++ object (event_object event) ∷ []
  unfolding enqueue
  queue-enqueue_room event s room =
      rw queue-persist (ground (arith, length-append s.queue (object (event_object event) ∷ [])))

  -- `track` in batched mode, with the event queued.
  abbrev queued : TrackEvent → State S → State S
  queued event s =
      enqueue env (queued_event env event (env.random s.drawn)) (record s { drawn = s.drawn + 1 })

  track_waiting :
      (event : TrackEvent) (s : State S)
      → env.hooks.on_track event ≡ none
      → number_le env.config.batch_size (of_ℕ 1) ≡ false
      → number_le env.config.batch_size (of_ℕ (length (queued event s).queue)) ≡ false
      → track env event s ≡ (ok tt, schedule (queued event s))
  unfolding track draw
  track_waiting event s hook batched small = ground arith

  track_flushing :
      (event : TrackEvent) (s : State S)
      → env.hooks.on_track event ≡ none
      → number_le env.config.batch_size (of_ℕ 1) ≡ false
      → number_le env.config.batch_size (of_ℕ (length (queued event s).queue)) ≡ true
      → track env event s ≡ background (flush env false) (queued event s)
  unfolding track draw
  track_flushing event s hook batched full = ground arith

  sent-enqueue : (event : QueuedEvent) (s : State S) → (enqueue env event s).sent ≡ s.sent
  unfolding enqueue
  sent-enqueue event s = sent-persist _

  schedule_sets :
      (s : State S) (v : Value) (q : List Value) → s.queue ≡ q ++ v ∷ [] → (schedule s).timer ≡ true
  unfolding schedule
  schedule_sets s v [] e = ground arith
  schedule_sets s v (w ∷ q) e = ground arith

  schedule_keeps : (s : State S) → ((schedule s).queue ≡ s.queue) × ((schedule s).sent ≡ s.sent)
  unfolding schedule
  schedule_keeps s = ground arith

  -- While the queue with the new event stays below the batch size, and within its cap, `track`
  -- sends nothing: it puts the event at the end of the queue and sees that the timer is set.
  pub track_waits :
      (event : TrackEvent) (s : State S) (n : ℕ)
      → env.hooks.on_track event ≡ none
      → env.config.batch_size ≡ of_ℕ n
      → length s.queue + 1 < n
      → length s.queue + 1 ≤ env.config.max_queue_size
      → let t = (track env event s).1 in
        ((track env event s).0 ≡ ok tt)
        × (t.queue ≡ s.queue ++ tracked event s ∷ [])
        × (t.sent ≡ s.sent)
        × (t.timer ≡ true)
  track_waits event s n hook size small room =
      let q =
        queue-enqueue_room (queued_event env event (env.random s.drawn))
          (record s { drawn = s.drawn + 1 }) room in
      let (queue, sent) = schedule_keeps (queued event s) in
      let batched : number_le env.config.batch_size (of_ℕ 1) ≡ false =
        below_size _ n 1 size (omega arith) in
      let below : number_le env.config.batch_size (of_ℕ (length (queued event s).queue)) ≡ false =
        below_size _ n _ size
          (rw q (omega (arith, length-append s.queue (tracked event s ∷ [])))) in
      rw (track_waiting event s hook batched below)
        (refl, queue ∙ q, sent ∙ sent-enqueue _ _, schedule_sets (queued event s) _ s.queue q)

  -- In batched mode, with room in the queue, where every fetch and the body of every response
  -- settles, refused batches are put back and no refusal is permanent, `track` adds its event at
  -- the end of the sequence of accepted and queued events, and changes nothing else of it, whether
  -- it sends the queue or not.
  pub track_conserves :
      (settles : Settles env) (event : TrackEvent) (s : State S)
      → env.hooks.on_track event ≡ none
      → number_le env.config.batch_size (of_ℕ 1) ≡ false
      → length s.queue + 1 ≤ env.config.max_queue_size
      → env.config.requeue_failed_events ≡ true
      → NeverPermanent env
      → all_accepted env (track env event s).1 ++ (track env event s).1.queue
        ≡ (all_accepted env s ++ s.queue) ++ tracked event s ∷ []
  track_conserves settles event s hook batched room requeue np =
      let q =
        queue-enqueue_room (queued_event env event (env.random s.drawn))
          (record s { drawn = s.drawn + 1 }) room in
      let more =
        ap (◌++◌ (all_accepted env s)) q ∙ sym (append_assoc (all_accepted env s) s.queue _) in
      let (queue, sent) = schedule_keeps (queued event s) in
      elim (Bool-cases (number_le env.config.batch_size (of_ℕ (length (queued event s).queue)))) [
        | inl full ↦ rw (track_flushing event s hook batched full) (
            flush_conserves env settles false (queued event s) requeue np
            ∙ ap (λ xs. accepted_events env 0 xs ++ (queued event s).queue) (sent-enqueue _ _)
            ∙ more)
        | inr small ↦
            rw (track_waiting event s hook batched small)
              (ap₂ (λ xs ys. accepted_events env 0 xs ++ ys) (sent ∙ sent-enqueue _ _) queue ∙ more)
      ]
