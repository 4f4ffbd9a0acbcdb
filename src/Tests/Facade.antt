-- ===== src/Tests/Facade.antt =====
-- The facade over an api integration and one whose hooks throw.
use iforevents_sdks.Prelude.{◌≡◌, refl, true, some, List, [], ◌∷◌, ◌++◌, arith}
use iforevents_sdks.Js.Value.{Properties, empty, entry, string, object, put, assign}
use iforevents_sdks.Flatten.{flatten, flatten_from, flatten_value}
use iforevents_sdks.Errors.{other}
use iforevents_sdks.Exec.{ok}
use iforevents_sdks.Types.{no_hooks, IntegrationResult, IntegrationHooks}
use iforevents_sdks.Storage.{Entries}
use iforevents_sdks.Api.{State}
use iforevents_sdks.Api.Calls.Ends.{calls_end}
use iforevents_sdks.Ids.{message_id}
use iforevents_sdks.Integration.{base_integration}
use iforevents_sdks.Facade.{Member, Facade, Clock, fan_out, track, shutdown}
use iforevents_sdks.Facade.FanOut.{AllEnd, Isolated, fan_out-Isolated}
use iforevents_sdks.Facade.Lifecycle.{IsClosed, shutdown-IsClosed, merged, api_member, track_queues}
use iforevents_sdks.Tests.{kept, kept_settles, running, waiting}

abbrev pub clock : Clock
clock = record { now = λ n. "t"; finished = λ n i. "done" }

abbrev failing : IntegrationHooks
failing = record no_hooks {
  on_identify = λ e. some (other "broken");
  on_track = λ e. some (other "broken");
  on_reset = some (other "broken");
}

abbrev vendor : Member (State Entries)
vendor = record { behaviour = base_integration failing "Vendor"; state = running }

abbrev open_facade : Facade (State Entries)
open_facade = record {
  integrations = api_member kept running ∷ vendor ∷ [];
  traits = empty;
  initialized = true;
  context_provider = λ n. some (some (entry "runtime" (string "browser") empty));
  contexts = 0;
  fan_outs = 0;
  observed = [];
}

abbrev traits : Properties
traits = entry "plan" (object (entry "name" (string "pro") empty)) empty

fan_out-Isolated_example :
    (rs : List IntegrationResult) × (((fan_out clock (λ i. i.reset) open_facade).0 ≡ ok rs)
      × Isolated
          (λ i. i.reset)
          open_facade.integrations
          rs
          (fan_out clock (λ i. i.reset) open_facade).1.integrations)
unfolding AllEnd
fan_out-Isolated_example =
    fan_out-Isolated (λ i. i.reset) clock open_facade
      ((calls_end kept kept_settles running).4, (tt, tt))

shutdown-IsClosed_example :
    IsClosed clock (shutdown clock open_facade).1
    × ((rs : List IntegrationResult) × ((shutdown clock open_facade).0 ≡ ok rs)
        × Isolated
            (λ i. i.shutdown)
            open_facade.integrations
            rs
            (shutdown clock open_facade).1.integrations)
unfolding AllEnd
shutdown-IsClosed_example =
    shutdown-IsClosed clock open_facade ((calls_end kept kept_settles running).6, (tt, tt))

track_queues_example :
    (t' : State Entries) × (others : List (Member (State Entries))) × ((track clock "click" traits
        open_facade).1.integrations
      ≡ api_member kept t' ∷ others)
    × (t'.queue
        ≡ waiting
          ++ object (
              entry "name" (string "click") (
                entry "type" (string "track") (
                  entry "properties" (object (flatten traits)) (
                    entry "created_at" (string (clock.now 0)) (
                      entry "message_id"
                        (string (message_id (kept.random running.drawn)))
                        empty)))))
            ∷ [])
    × (t'.sent ≡ [])
    × (t'.timer ≡ true)
track_queues_example =
    track_queues kept clock "click" traits open_facade running (vendor ∷ []) 20 refl refl refl refl
      refl (omega arith) (omega arith)

-- The traits that both integrations are handed.
merged_example :
    merged clock traits open_facade
    ≡ entry "runtime" (string "browser") (entry "plan_name" (string "pro") empty)
unfolding flatten flatten_from flatten_value put assign
merged_example = refl
