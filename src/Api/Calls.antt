-- ===== src/Api/Calls.antt =====
-- The calls of the api integration, each run to its end before the next.
pub mod Visitor
pub mod Identity
pub mod Restore
pub mod Tracking
pub mod Persistence
pub mod Timed
pub mod Ends
use iforevents_sdks.Prelude.{
  ℕ, zero, suc, ◌+◌, ◌-◌, String, Bool, true, false, not, ◌&&◌, ◌||◌, ◌⊎◌, inl, inr, Option, none,
  some, List, [], ◌∷◌, ◌++◌, length, drop, ◌==◌, eqb, ltb, if◌then◌else◌,
}
use iforevents_sdks.Js.Number.{of_ℕ, number_le}
use iforevents_sdks.Js.Value.{
  Value, string, array, object, Properties, empty, entry, elements, get, put, assign, without,
}
use iforevents_sdks.Errors.{Error}
use iforevents_sdks.Exec.{Exec, ok, ◌>>=◌, ◌>>◌, pure, throw, gets, modify, attempt, background}
use iforevents_sdks.Types.{EventType, page_view, event_type, IdentifyEvent, TrackEvent, PageEvent}
use iforevents_sdks.Ids.{Bytes, anonymous_id, message_id}
use iforevents_sdks.Api.{
  Config, QueuedEvent, event_object, Env, State, user_key, identified_key, anonymous_key, queue_key,
  truthy, run_hook,
}
use iforevents_sdks.Api.Request.{envelope, request}
use iforevents_sdks.Api.Queue.{clear_timer, schedule, report, persist, flush}

-- `list.slice(-max)`, where `-0` keeps the whole list.
abbrev pub last_events : ℕ → List Value → List Value
last_events max events = if eqb max 0 then events else drop (length events - max) events

-- The `splice` of `track`: the oldest events go once there are more than `max`.
abbrev pub newest : ℕ → List Value → List Value
newest max queue = if ltb max (length queue) then drop (length queue - max) queue else queue

-- `typeof v === "string" && v`, put under a key of the body of `identify`.
abbrev lift_text : String → Option Value → Properties → Properties
lift_text key (some (string s)) body = if s == "" then body else put key (string s) body
lift_text key v body = body

abbrev pub rest_of : Properties → Properties
rest_of traits = without "phone_number" (without "name" (without "email" traits))

-- The body of `identify`, before the envelope.
unfoldable pub identify_body : IdentifyEvent → String → Properties
identify_body event id = lift_text "phone_number" (get "phone_number" event.traits) (
    lift_text "name" (get "name" event.traits) (
      lift_text "email" (get "email" event.traits) (
        entry "custom_id" (string event.custom_id) (
          entry "properties" (object (rest_of event.traits))
            (entry "message_id" (string id) empty)))))

-- The body of a single `/track`, before the envelope.
unfoldable pub track_body : QueuedEvent → Properties
track_body e = entry "event_name" (string e.name) (
    entry "event_type" (string (event_type e.kind))
      (entry "properties" (object e.properties) (entry "message_id" (string e.message_id) empty)))

abbrev set_text : String → Option String → Properties → Properties
set_text key none p = p
set_text key (some v) p = put key (string v) p

-- The event that `page` hands to `track`.
unfoldable pub page_track : PageEvent → TrackEvent
page_track event = record {
  name = if event.name == "" then "page_view" else event.name;
  kind = page_view;
  properties = set_text "previous_route" event.previous_route (
      set_text "to_route" event.to_route
        (set_text "navigation_type" event.navigation_type (assign empty event.properties)));
  timestamp = event.timestamp;
}

abbrev or_generated : Option String → String → String
or_generated none id = id
or_generated (some id) _ = id

abbrev flag : Bool → String
flag true = "true"
flag false = "false"

abbrev is_true : Option String → Bool
is_true none = false
is_true (some text) = text == "true"

module _ {S : Type 0} (env : Env S) where
  -- The sixteen bytes of the next identifier.
  unfoldable pub draw : Exec (State S) Bytes
  draw s = (ok (env.random s.drawn), record s { drawn = s.drawn + 1 })

  -- `setAnonymous`
  unfoldable pub set_anonymous : String → State S → State S
  set_anonymous id s = record s {
    anon_id = some id;
    store = env.storage.set anonymous_key id s.store;
  }

  -- `setUser`
  unfoldable pub set_user : String → Bool → State S → State S
  set_user id identified s = record s {
    user_id = some id;
    identified = identified;
    store = env.storage.set identified_key (flag identified) (env.storage.set user_key id s.store);
  }

  -- The identity of the visitor, from the store or new: the first half of `init`.
  unfoldable pub restored :
      Option String → Option String → Option String → Bytes → State S → State S
  unfolding set_anonymous set_user
  restored (some stored) anon flag_text bytes s =
      let identified = is_true flag_text in
      let old_anon : Option String = if identified then none else some stored in
      set_anonymous
        (or_generated (elim anon [ some a ↦ some a | none ↦ old_anon ]) (anonymous_id bytes))
        (record s { user_id = some stored; identified = identified })
  restored none anon flag_text bytes s =
      let id = or_generated anon (anonymous_id bytes) in set_user id false (set_anonymous id s)

  -- An identifier is drawn only where none is stored.
  abbrev draws : Option String → Option String → Option String → ℕ
  draws (some stored) none flag_text = if is_true flag_text then 1 else 0
  draws none none flag_text = 1
  draws stored (some anon) flag_text = 0

  unfoldable pub restore_identity : State S → State S
  unfolding restored
  restore_identity s =
      let anon = truthy (env.storage.get anonymous_key s.store) in
      let stored = truthy (env.storage.get user_key s.store) in
      let flag_text = env.storage.get identified_key s.store in
      restored stored anon flag_text (env.random s.drawn)
        (record s { drawn = s.drawn + draws stored anon flag_text })

  unfoldable pub restored_queue : Option Value → State S → State S
  unfolding schedule
  restored_queue none s = record s { store = env.storage.remove queue_key s.store }
  restored_queue (some (array vs)) s = elim (elements vs) [
    | [] ↦ s
    | v ∷ events ↦
        schedule
          (record s { queue = last_events env.config.max_queue_size ((v ∷ events) ++ s.queue) })
  ]
  restored_queue (some v) s = s

  -- The queue of an earlier run: the second half of `init`.
  unfoldable pub restore_queue : State S → State S
  unfolding restored_queue
  restore_queue s =
      if env.config.persist_queue
      then elim (truthy (env.storage.get queue_key s.store)) [
        | none ↦ s
        | some raw ↦ restored_queue (env.runtime.parse raw) s
      ]
      else s

  unfoldable pub init : Exec (State S) (Unit {0})
  init = do
    run_hook env.hooks.on_init
    modify restore_identity
    modify restore_queue
    modify λ s. record s { initialized = true }

  -- What `identify` and a single `track` do with a rejection.
  unfoldable pub settle : {A : Type 0} → A ⊎ Error → Exec (State S) (Unit {0})
  unfolding report
  settle (inl done) = pure tt
  settle (inr error) = do
    modify (report error)
    if env.config.throw_on_error then throw error else pure tt

  -- A POST of its own, with what the envelope adds.
  unfoldable pub post_single : String → Properties → Exec (State S) (Unit {0})
  post_single path body = do
    result ← attempt (do extra ← envelope env; request env path (object (assign body extra)) false)
    settle result

  unfoldable pub identify : IdentifyEvent → Exec (State S) (Unit {0})
  identify event = do
    run_hook (env.hooks.on_identify event)
    bytes ← draw
    modify (set_user event.custom_id true)
    post_single "/v1/events/identify" (identify_body event (message_id bytes))

  abbrev pub queued_event : TrackEvent → Bytes → QueuedEvent
  queued_event event bytes = record {
    name = event.name;
    kind = event.kind;
    properties = event.properties;
    created_at = event.timestamp;
    message_id = message_id bytes;
  }

  -- The batched half of `track` up to the flush.
  unfoldable pub enqueue : QueuedEvent → State S → State S
  unfolding persist
  enqueue event s = persist env (record s {
    queue = newest env.config.max_queue_size (s.queue ++ object (event_object event) ∷ []);
  })

  unfoldable pub track : TrackEvent → Exec (State S) (Unit {0})
  track event = do
    run_hook (env.hooks.on_track event)
    bytes ← draw
    if number_le env.config.batch_size (of_ℕ 1)
        then post_single "/v1/events/track" (track_body (queued_event event bytes))
        else (do
          modify (enqueue (queued_event event bytes))
          queue ← gets λ s. s.queue
          if number_le env.config.batch_size (of_ℕ (length queue))
              then background (flush env false)
              else modify schedule)

  unfoldable pub page : PageEvent → Exec (State S) (Unit {0})
  page event = do run_hook (env.hooks.on_page event); track (page_track event)

  -- `setAnonymous(anonymousId())` and `setUser(this.anonId, false)`
  unfoldable pub forget : Bytes → State S → State S
  unfolding set_anonymous set_user
  forget bytes s = set_user (anonymous_id bytes) false (set_anonymous (anonymous_id bytes) s)

  unfoldable pub reset : Exec (State S) (Unit {0})
  reset = do run_hook env.hooks.on_reset; flush env false; bytes ← draw; modify (forget bytes)

  unfoldable pub shutdown : Exec (State S) (Unit {0})
  shutdown = do flush env false; modify clear_timer
