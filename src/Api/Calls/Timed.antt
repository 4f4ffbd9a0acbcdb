-- ===== src/Api/Calls/Timed.antt =====
-- The timer, over the calls of the api integration.
use iforevents_sdks.Prelude.{
  String, ◌≡◌, refl, ◌⊎◌, inl, inr, Bool, true, false, Option, none, some, List, [], ◌∷◌, ◌++◌,
  length, Bool-cases, arith, if◌then◌else◌,
}
use iforevents_sdks.Js.Number.{of_ℕ, number_le}
use iforevents_sdks.Js.Value.{Value, array, elements, Properties}
use iforevents_sdks.Errors.{Error}
use iforevents_sdks.Exec.{ok, background}
use iforevents_sdks.Exec.Keeps.{
  Keeps, Keeps-pure, Keeps-throw, Keeps-if, Keeps-attempt, Keeps-modify, Keeps-bind,
}
use iforevents_sdks.Ids.{Bytes, message_id}
use iforevents_sdks.Types.{IdentifyEvent, TrackEvent, PageEvent}
use iforevents_sdks.Api.{Env, State, run_hook, truthy, queue_key}
use iforevents_sdks.Api.Request.{envelope, request}
use iforevents_sdks.Api.Request.Ends.{Settles, request-Untouched}
use iforevents_sdks.Api.Queue.{schedule, clear_timer, report, flush, timer_fires}
use iforevents_sdks.Api.Calls.{
  draw, set_anonymous, set_user, settle, post_single, identify_body, track_body, identify, enqueue,
  queued_event, track, page, page_track, forget, reset, last_events, restored_queue, restore_queue,
  restored, restore_identity, init,
}
use iforevents_sdks.Api.Queue.Timed.{IsTimed, schedule-IsTimed, flush-IsTimed}

module _ {S : Type 0} (env : Env S) where
  IsTimed-of_same : (s t : State S) → t.queue ≡ s.queue → t.timer ≡ s.timer → IsTimed s → IsTimed t
  IsTimed-of_same s t queue timer h = rw (queue, timer) h

  hook-IsTimed : (h : Option Error) → Keeps IsTimed (run_hook {S = State S} h)
  hook-IsTimed none = Keeps-pure tt
  hook-IsTimed (some e) = Keeps-throw e

  settle-IsTimed : (r : Value ⊎ Error) → Keeps IsTimed (settle env r)
  unfolding settle report
  settle-IsTimed (inl done) = Keeps-pure tt
  settle-IsTimed (inr e) =
      Keeps-bind _ _ (Keeps-modify (report e) λ s h. ground arith)
        λ _. Keeps-if env.config.throw_on_error _ _ (Keeps-throw e) (Keeps-pure tt)

  request-IsTimed :
      (path : String) (body : Value) (keepalive : Bool)
      → Keeps IsTimed (request env path body keepalive)
  request-IsTimed path body keepalive = record {
    at = λ s h.
        let u = request-Untouched env path body keepalive s in
        IsTimed-of_same s (request env path body keepalive s).1 u.queue u.timer h;
  }

  envelope-IsTimed : Keeps IsTimed (envelope env)
  unfolding envelope
  envelope-IsTimed = record { at = λ s h. h }

  draw-IsTimed : Keeps IsTimed (draw env)
  unfolding draw
  draw-IsTimed = record { at = λ s h. h }

  post_single-IsTimed :
      (path : String) (body : Properties) → Keeps IsTimed (post_single env path body)
  unfolding post_single
  post_single-IsTimed path body =
      Keeps-bind {A = Value ⊎ Error} _ _
        (Keeps-attempt _ (Keeps-bind _ _ envelope-IsTimed λ extra. request-IsTimed path _ false))
        settle-IsTimed

  identify-IsTimed : (event : IdentifyEvent) → Keeps IsTimed (identify env event)
  unfolding identify set_user
  identify-IsTimed event = Keeps-bind _ _ (hook-IsTimed (env.hooks.on_identify event)) λ _.
      Keeps-bind _ _ draw-IsTimed λ bytes.
        Keeps-bind _ _ (Keeps-modify (set_user env event.custom_id true) λ s h. h)
          λ _. post_single-IsTimed "/v1/events/identify" (identify_body event (message_id bytes))

  restored_queue-IsTimed :
      (v : Option Value) (s : State S) → IsTimed s → IsTimed (restored_queue env v s)
  unfolding restored_queue
  restored_queue-IsTimed none s h = h
  restored_queue-IsTimed (some (array vs)) s h = elements_cases (elements vs)
    where
      elements_cases :
          (vs : List Value)
          → IsTimed (elim vs [
            | [] ↦ s
            | v ∷ events ↦ schedule (record s {
              queue = last_events env.config.max_queue_size ((v ∷ events) ++ s.queue);
            })
          ])
      elements_cases [] = h
      elements_cases (v ∷ events) =
          schedule-IsTimed env
            (record s { queue = last_events env.config.max_queue_size ((v ∷ events) ++ s.queue) })
  restored_queue-IsTimed (some v) s h = h

  restore_queue-IsTimed : (s : State S) → IsTimed s → IsTimed (restore_queue env s)
  unfolding restore_queue
  restore_queue-IsTimed s h =
      kept env.config.persist_queue (truthy (env.storage.get queue_key s.store))
    where
      kept :
          (on : Bool) (raw : Option String)
          → IsTimed (
              if on
              then elim raw [ none ↦ s | some text ↦ restored_queue env (env.runtime.parse text) s ]
              else s)
      kept false raw = h
      kept true none = h
      kept true (some text) = restored_queue-IsTimed (env.runtime.parse text) s h

  restored_same :
      (user anon flag_text : Option String) (bytes : Bytes) (s : State S)
      → ((restored env user anon flag_text bytes s).queue ≡ s.queue)
        × ((restored env user anon flag_text bytes s).timer ≡ s.timer)
  unfolding restored set_anonymous set_user
  restored_same none anon flag_text bytes s = (refl, refl)
  restored_same (some user) anon flag_text bytes s = (refl, refl)

  restore_identity_same :
      (s : State S)
      → ((restore_identity env s).queue ≡ s.queue) × ((restore_identity env s).timer ≡ s.timer)
  unfolding restore_identity
  restore_identity_same s = restored_same _ _ _ _ _

  restore_identity-IsTimed : (s : State S) → IsTimed s → IsTimed (restore_identity env s)
  restore_identity-IsTimed s h =
      let (queue, timer) = restore_identity_same s in
      IsTimed-of_same s (restore_identity env s) queue timer h

  init-IsTimed : Keeps IsTimed (init env)
  unfolding init
  init-IsTimed = Keeps-bind _ _ (hook-IsTimed env.hooks.on_init) λ _.
      Keeps-bind _ _ (Keeps-modify (restore_identity env) restore_identity-IsTimed) λ _.
        Keeps-bind _ _ (Keeps-modify (restore_queue env) restore_queue-IsTimed)
          λ _. Keeps-modify (λ s. record s { initialized = true }) λ s h. h

  module _ (settles : Settles env) (requeue : env.config.requeue_failed_events ≡ true) where
    Keeps-flush : (keepalive : Bool) → Keeps IsTimed (flush env keepalive)
    Keeps-flush keepalive = record { at = λ s h. flush-IsTimed env requeue settles keepalive s }

    track-IsTimed : (event : TrackEvent) → Keeps IsTimed (track env event)
    unfolding track
    track-IsTimed event = Keeps-bind _ _ (hook-IsTimed (env.hooks.on_track event)) λ _.
        Keeps-bind _ _ draw-IsTimed λ bytes.
          Keeps-if (number_le env.config.batch_size (of_ℕ 1)) _ _
            (post_single-IsTimed "/v1/events/track" (track_body (queued_event env event bytes)))
            (record { at = λ s h. sends_or_waits (enqueue env (queued_event env event bytes) s) })
      where
        sends_or_waits :
            (s : State S)
            → IsTimed
                ((if number_le env.config.batch_size (of_ℕ (length s.queue))
                    then background (flush env false)
                    else (λ t. (ok tt, schedule t)))
                  s).1
        sends_or_waits s =
            elim (Bool-cases (number_le env.config.batch_size (of_ℕ (length s.queue)))) [
              | inl full ↦ rw full (flush-IsTimed env requeue settles false s)
              | inr room ↦ rw room (schedule-IsTimed env s)
            ]

    page-IsTimed : (event : PageEvent) → Keeps IsTimed (page env event)
    unfolding page
    page-IsTimed event =
        Keeps-bind _ _ (hook-IsTimed (env.hooks.on_page event))
          λ _. track-IsTimed (page_track event)

    reset-IsTimed : Keeps IsTimed (reset env)
    unfolding reset forget set_user set_anonymous
    reset-IsTimed = Keeps-bind _ _ (hook-IsTimed env.hooks.on_reset) λ _.
        Keeps-bind _ _ (Keeps-flush false)
          λ _. Keeps-bind _ _ draw-IsTimed λ bytes. Keeps-modify (forget env bytes) λ s h. h

    timer_fires-IsTimed : Keeps IsTimed (timer_fires env)
    unfolding timer_fires
    timer_fires-IsTimed = record {
      at = λ s h. flush-IsTimed env requeue settles false (clear_timer s);
    }

    -- With `requeueFailedEvents`, and where every fetch and the body of every response settles, no
    -- event is left waiting for nobody: where the queue is empty or the timer is set, it is so
    -- after every call of the api integration but `shutdown`, and after the timer has fired,
    -- whatever the network answers and the hooks throw.
    pub calls-IsTimed :
        (s : State S)
        → IsTimed s
        → IsTimed (init env s).1
          × ((event : IdentifyEvent) → IsTimed (identify env event s).1)
          × ((event : TrackEvent) → IsTimed (track env event s).1)
          × ((event : PageEvent) → IsTimed (page env event s).1)
          × IsTimed (reset env s).1
          × ((keepalive : Bool) → IsTimed (flush env keepalive s).1)
          × IsTimed (timer_fires env s).1
    calls-IsTimed s h = (
      init-IsTimed.at s h,
      λ event. (identify-IsTimed event).at s h,
      λ event. (track-IsTimed event).at s h,
      λ event. (page-IsTimed event).at s h,
      reset-IsTimed.at s h,
      λ keepalive. flush-IsTimed env requeue settles keepalive s,
      timer_fires-IsTimed.at s h,
    )
