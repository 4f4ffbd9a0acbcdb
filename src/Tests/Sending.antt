-- ===== src/Tests/Sending.antt =====
-- Requests and flushes, on concrete networks.
use iforevents_sdks.Prelude.{[], ◌≤◌, ◌<◌, ◌≡◌, refl, inr, false, none, some, ◌++◌, length, arith}
use iforevents_sdks.Js.Value.{null, object, empty}
use iforevents_sdks.Errors.{retryable_kind, network_error, api, classify_response, kind_of}
use iforevents_sdks.Exec.{ok, thrown, out_of_fuel, Ends}
use iforevents_sdks.Api.Request.{request, post_of, note_outcome, judge, parse_json}
use iforevents_sdks.Api.Request.Attempts.{waits, sent_times, request_delivers, request_gives_up}
use iforevents_sdks.Api.Request.Quota.{QuotaNoted, request-QuotaNoted}
use iforevents_sdks.Api.Request.Ends.{Settles, Untouched, request-Ends}
use iforevents_sdks.Api.Queue.{flush}
use iforevents_sdks.Api.Queue.Delivery.{all_accepted}
use iforevents_sdks.Api.Queue.Drains.{Accounts, flush-Accounts}
use iforevents_sdks.Api.Queue.Conservation.{flush_conserves}
use iforevents_sdks.Api.Calls.{init, identify, track, page, reset, shutdown}
use iforevents_sdks.Api.Calls.Ends.{calls_end}
use iforevents_sdks.Types.{IdentifyEvent, TrackEvent, PageEvent}
use iforevents_sdks.Api.Queue.Stalls.{flush_stalls}
use iforevents_sdks.Tests.{
  hung, kept_settles, kept, losing, loud, running, waiting, kept_never_permanent,
}

flush_conserves_example :
    all_accepted kept (flush kept false running).1 ++ (flush kept false running).1.queue
    ≡ all_accepted kept running ++ waiting
flush_conserves_example = flush_conserves kept kept_settles false running refl kept_never_permanent

flush-Accounts_example :
    Accounts kept running (flush kept false running).0 (flush kept false running).1
flush-Accounts_example = flush-Accounts kept kept_settles false running

request_delivers_example : request kept "/v1/events/batch" (object empty) false running ≡ (
  ok null,
  note_outcome none (
      sent_times kept 2
        (post_of kept "/v1/events/batch" (object empty) false running)
        (waits kept 0 0 1)
        running),
)
unfolding judge parse_json classify_response kind_of retryable_kind
request_delivers_example =
    request_delivers kept "/v1/events/batch" (object empty) false running 1 null (omega arith)
      ((_, refl, refl), tt) refl

request_gives_up_example : request losing "/v1/events/batch" (object empty) false running ≡ (
  thrown (api (network_error "offline")),
  note_outcome (some (network_error "offline")) (
      sent_times losing 2
        (post_of losing "/v1/events/batch" (object empty) false running)
        (waits losing 0 0 1)
        running),
)
unfolding judge retryable_kind
request_gives_up_example =
    request_gives_up losing "/v1/events/batch" (object empty) false running 1
      (network_error "offline") (omega arith) ((_, refl, refl), tt) refl (inr refl)

flush_stalls_example :
    ((flush hung false running).0 ≡ out_of_fuel)
    × ((flush hung false running).1.queue ≡ [])
    × ((flush hung false running).1.timer ≡ false)
unfolding judge parse_json classify_response kind_of retryable_kind
flush_stalls_example =
    flush_stalls hung false 1 (omega arith) running refl ((_, refl, refl), tt) refl

loud_settles : Settles loud
loud_settles n e = cc

request-Ends_example :
    Ends (request loud "/v1/events/track" (object empty) false running).0
    × (0 < length (request loud "/v1/events/track" (object empty) false running).1.sent)
    × (length (request loud "/v1/events/track" (object empty) false running).1.sent ≤ 2)
    × Untouched loud running (request loud "/v1/events/track" (object empty) false running).1
request-Ends_example =
    request-Ends loud loud_settles "/v1/events/track" (object empty) false running

calls_end_example :
    Ends (init loud running).0
    × ((event : IdentifyEvent) → Ends (identify loud event running).0)
    × ((event : TrackEvent) → Ends (track loud event running).0)
    × ((event : PageEvent) → Ends (page loud event running).0)
    × Ends (reset loud running).0
    × Ends (flush loud false running).0
    × Ends (shutdown loud running).0
calls_end_example = calls_end loud loud_settles running

request-QuotaNoted_example :
    QuotaNoted running
      (request losing "/v1/events/track" (object empty) false running).1
      (request losing "/v1/events/track" (object empty) false running).0
request-QuotaNoted_example =
    request-QuotaNoted losing "/v1/events/track" (object empty) false running
