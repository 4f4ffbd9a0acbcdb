-- ===== src/Tests/Visitor.antt =====
-- The calls of the api integration, on concrete states.
use iforevents_sdks.Prelude.{
  ◌≡◌, refl, Bool, true, false, some, [], ◌∷◌, ◌++◌, length, replicate, arith,
}
use iforevents_sdks.Js.Number.{number_le}
use iforevents_sdks.Js.Value.{empty, string}
use iforevents_sdks.Errors.{
  network_error, api, classify_response, kind_of, code_of, is_quota, retryable_kind, retry_after,
}
use iforevents_sdks.Exec.{ok, thrown}
use iforevents_sdks.Types.{track as track_type, IdentifyEvent, TrackEvent, PageEvent}
use iforevents_sdks.Storage.{map_get, Entries}
use iforevents_sdks.Storage.Laws.{memory_storage-IsLawful}
use iforevents_sdks.Ids.{anonymous_id}
use iforevents_sdks.Api.{State, QueuedEvent, new_state}
use iforevents_sdks.Api.Request.{
  envelope, request, attempts, fetch, sleep, note_outcome, judge, parse_json, delay,
}
use iforevents_sdks.Api.Queue.{
  flush, clear_timer, drain, take_batch, send_batch, persist, drain_failed, put_back, report,
  schedule, timer_fires,
}
use iforevents_sdks.Api.Queue.Delivery.{all_accepted}
use iforevents_sdks.Api.Queue.Timed.{IsTimed}
use iforevents_sdks.Api.Calls.{init, identify, track, page, reset}
use iforevents_sdks.Api.Calls.Visitor.{Mirrored, SameVisitor}
use iforevents_sdks.Api.Calls.Identity.{
  identify-Mirrored, reset-Mirrored, reset-SameVisitor_of_thrown,
}
use iforevents_sdks.Api.Calls.Restore.{init_resumes}
use iforevents_sdks.Api.Calls.Tracking.{tracked, track_conserves}
use iforevents_sdks.Api.Calls.Persistence.{IsPersisted, flush-IsPersisted}
use iforevents_sdks.Api.Calls.Timed.{calls-IsTimed}
use iforevents_sdks.Tests.{
  kept_settles, unlike, kept, loud, running, losing, waiting, sixteen, kept_never_permanent,
}

running-Mirrored : Mirrored kept running
unfolding map_get
running-Mirrored = record { user = refl; anonymous = refl; identified = refl }

abbrev signed_in : IdentifyEvent
signed_in = record { custom_id = "bea"; traits = empty }

abbrev clicked : TrackEvent
clicked = record { name = "click"; kind = track_type; properties = empty; timestamp = "t" }

identify-Mirrored_example :
    let t = (identify kept signed_in running).1 in
    (t.user_id ≡ some "bea") × (t.identified ≡ true) × (t.anon_id ≡ some "anon_1") × Mirrored kept t
identify-Mirrored_example =
    identify-Mirrored kept memory_storage-IsLawful signed_in running refl running-Mirrored

-- The flush before the reset goes through at the second attempt.
kept_flushes : (flush kept false running).0 ≡ ok tt
unfolding flush clear_timer drain take_batch send_batch envelope request attempts fetch sleep
    note_outcome judge parse_json classify_response kind_of code_of retryable_kind retry_after delay
    persist drain_failed put_back report schedule
kept_flushes = refl

reset-Mirrored_example :
    let t = (reset kept running).1 in
    let id = some (anonymous_id sixteen) in
    (t.user_id ≡ id) × (t.anon_id ≡ id) × (t.identified ≡ false) × Mirrored kept t
reset-Mirrored_example = reset-Mirrored kept memory_storage-IsLawful running refl kept_flushes

loud_throws : (flush loud false running).0 ≡ thrown (api (network_error "offline"))
unfolding flush clear_timer drain take_batch send_batch envelope request attempts fetch sleep
    note_outcome judge parse_json classify_response kind_of code_of retryable_kind retry_after delay
    persist drain_failed put_back report schedule
loud_throws = refl

reset-SameVisitor_of_thrown_example :
    ((reset loud running).0 ≡ thrown (api (network_error "offline")))
    × SameVisitor loud running (reset loud running).1
reset-SameVisitor_of_thrown_example =
    reset-SameVisitor_of_thrown loud memory_storage-IsLawful running (api (network_error "offline"))
      refl loud_throws

init_resumes_example :
    let t = (init kept (new_state running.store)).1 in
    (t.user_id ≡ some "ana") × (t.anon_id ≡ some "anon_1") × (t.identified ≡ true)
init_resumes_example =
    init_resumes kept memory_storage-IsLawful running "ana" "anon_1" refl running-Mirrored refl refl
      (unlike "ana" "" refl) (unlike "anon_1" "" refl)

abbrev fresh : State Entries
fresh = record running { store = []; queue = [] }

abbrev queued_click : QueuedEvent
queued_click = record {
  name = "click";
  kind = track_type;
  properties = empty;
  created_at = "t";
  message_id = "m";
}

track_conserves_example :
    all_accepted kept (track kept clicked running).1 ++ (track kept clicked running).1.queue
    ≡ (all_accepted kept running ++ waiting) ++ tracked kept clicked running ∷ []
unfolding number_le
track_conserves_example =
    track_conserves kept kept_settles clicked running refl refl (omega arith) refl
      kept_never_permanent

running-IsPersisted : IsPersisted kept running
unfolding map_get
running-IsPersisted = refl

flush-IsPersisted_example : IsPersisted kept (flush kept false running).1
flush-IsPersisted_example =
    flush-IsPersisted kept memory_storage-IsLawful refl kept_settles false running
      running-IsPersisted

calls-IsTimed_example :
    IsTimed (init kept running).1
    × ((event : IdentifyEvent) → IsTimed (identify kept event running).1)
    × ((event : TrackEvent) → IsTimed (track kept event running).1)
    × ((event : PageEvent) → IsTimed (page kept event running).1)
    × IsTimed (reset kept running).1
    × ((keepalive : Bool) → IsTimed (flush kept keepalive running).1)
    × IsTimed (timer_fires kept running).1
calls-IsTimed_example = calls-IsTimed kept kept_settles refl running refl

-- Without requeueing, what is left behind a batch that was lost waits for nobody.
abbrev over_a_batch : State Entries
over_a_batch = record running { queue = replicate 501 (string "first") }

left_behind :
    let t = (flush losing false over_a_batch).1 in (length t.queue ≡ 1) × (t.timer ≡ false)
unfolding flush clear_timer drain take_batch send_batch envelope request attempts fetch sleep
    note_outcome judge parse_json classify_response kind_of code_of retryable_kind retry_after delay
    persist drain_failed put_back report schedule is_quota
left_behind = (refl, refl)
