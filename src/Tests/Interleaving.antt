-- ===== src/Tests/Interleaving.antt =====
-- A batch that is refused while events are tracked.
use iforevents_sdks.Prelude.{
  String, ◌≡◌, refl, true, false, some, List, [], ◌∷◌, length, ◌==◌, if◌then◌else◌, arith,
}
use iforevents_sdks.Js.Value.{Value, string, object, empty, array, items, item, nil}
use iforevents_sdks.Errors.{network_error, retryable_kind}
use iforevents_sdks.Types.{track as track_type}
use iforevents_sdks.Storage.{Entries, map_get, map_set}
use iforevents_sdks.Api.{Env, QueuedEvent, State, event_object, new_state, queue_key}
use iforevents_sdks.Api.Queue.{take_batch, put_back, persist, drain_failed, report, schedule, flush}
use iforevents_sdks.Api.Calls.{enqueue, init, restore_identity, restore_queue, restored_queue}
use iforevents_sdks.Api.Interleaved.Sequential.{Played, flush-Played}
use iforevents_sdks.Api.Interleaved.{
  Line, Reach, start, further, takes, queues, fails, IsBounded, Reach-IsBounded,
}
use iforevents_sdks.Api.Interleaved.Order.{
  Thinned, Story, begins, goes_on, accepted_by, tracked_by, Story-Thinned,
}
use iforevents_sdks.Tests.{
  kept_settles, config_with, env_with, recovering, running, kept, plain_runtime,
}

-- At most one event is to be kept.
abbrev tight : Env Entries
tight = env_with (record (config_with true false) { max_queue_size = 1 }) recovering

abbrev one_waiting : State Entries
one_waiting = record running { queue = string "first" ∷ [] }

abbrev tracked_meanwhile : QueuedEvent
tracked_meanwhile = record {
  name = "click";
  kind = track_type;
  properties = empty;
  created_at = "t";
  message_id = "m";
}

abbrev left_over : Line Entries
left_over = record {
  state =
      (drain_failed tight (string "first" ∷ []) (network_error "offline")
        (enqueue tight tracked_meanwhile (take_batch one_waiting))).1;
  sending = false;
  flight = [];
}

refused_meanwhile : Reach tight one_waiting left_over
refused_meanwhile =
    further (further (further start (takes _ refl refl)) (queues _ tracked_meanwhile))
      (fails _ (network_error "offline") refl)

Reach-IsBounded_example : IsBounded tight left_over
Reach-IsBounded_example = Reach-IsBounded tight (omega arith) refused_meanwhile

told : Story tight one_waiting left_over [] (object (event_object tracked_meanwhile) ∷ [])
unfolding accepted_by tracked_by
told =
    goes_on (goes_on (goes_on begins (takes _ refl refl)) (queues _ tracked_meanwhile))
      (fails _ (network_error "offline") refl)

Story-Thinned_example :
    Thinned left_over.state.queue (string "first" ∷ object (event_object tracked_meanwhile) ∷ [])
Story-Thinned_example = Story-Thinned tight told

-- Two events are kept then.
kept_two : length left_over.state.queue ≡ 2
unfolding drain_failed put_back persist enqueue take_batch report schedule retryable_kind
kept_two = refl

-- A runtime that writes queues of one event and longer ones as different texts, and reads them back.
abbrev later : List Value
later = object (event_object tracked_meanwhile) ∷ []

abbrev both : List Value
both = string "first" ∷ later

abbrev written : Value → String
written (array (item v nil)) = "one"
written v = "two"

abbrev telling : Env Entries
telling = record kept {
  runtime = record plain_runtime {
    parse = λ text. some (array (items (if text == "one" then later else both)));
    stringify = written;
  };
}

abbrev saved_one : State Entries
saved_one = record one_waiting { store = (queue_key, "one") ∷ [] }

-- An event is tracked while the first one is in flight, and the run ends there.
abbrev crashed : Line Entries
crashed = record {
  state = enqueue telling tracked_meanwhile (take_batch saved_one);
  sending = true;
  flight = string "first" ∷ [];
}

-- The next instance has the later event only: the batch in flight is lost.
flight_lost : (init telling (new_state crashed.state.store)).1.queue ≡ later
unfolding init restore_identity restore_queue restored_queue persist enqueue take_batch new_state
    map_get map_set
flight_lost = refl

flush-Played_example : Played kept running (flush kept false running).1
flush-Played_example = flush-Played kept kept_settles false running
