-- ===== src/Integration.antt =====
-- js/packages/core/src/integration.ts: the base class, and `safeExecute`. An integration is its
-- name and its seven methods, over the state that the object keeps.
use iforevents_sdks.Prelude.{String, true, false, none, some}
use iforevents_sdks.Exec.{Outcome, ok, thrown, out_of_fuel, Exec, pure}
use iforevents_sdks.Types.{
  IdentifyEvent, TrackEvent, PageEvent, IntegrationResult, IntegrationHooks,
}
use iforevents_sdks.Api.{Env, State, run_hook}
use iforevents_sdks.Api.Queue
use iforevents_sdks.Api.Calls

pub record Integration (S : Type 0) : Type 0 where
  pub name : String
  pub init : Exec S (Unit {0})
  pub identify : IdentifyEvent → Exec S (Unit {0})
  pub track : TrackEvent → Exec S (Unit {0})
  pub page : PageEvent → Exec S (Unit {0})
  pub reset : Exec S (Unit {0})
  pub flush : Exec S (Unit {0})
  pub shutdown : Exec S (Unit {0})

-- `new Integration(hooks, name)`
abbrev pub base_integration : {S : Type 0} → IntegrationHooks → String → Integration S
base_integration hooks name = record {
  name = name;
  init = run_hook hooks.on_init;
  identify = λ event. run_hook (hooks.on_identify event);
  track = λ event. run_hook (hooks.on_track event);
  page = λ event. run_hook (hooks.on_page event);
  reset = run_hook hooks.on_reset;
  flush = pure tt;
  shutdown = pure tt;
}

-- `IForeventsAPIIntegration`, as the facade sees it.
abbrev pub api_integration : {S : Type 0} → Env S → Integration (State S)
api_integration env = record {
  name = "IForeventsAPIIntegration";
  init = Calls.init env;
  identify = Calls.identify env;
  track = Calls.track env;
  page = Calls.page env;
  reset = Calls.reset env;
  flush = Queue.flush env false;
  shutdown = Calls.shutdown env;
}

-- `safeExecute`, given what the action came to and the time at which it did.
unfoldable pub safe_execute :
    {S A : Type 0} → Integration S → String → Outcome A → Outcome IntegrationResult
safe_execute integration time (ok a) =
    ok (record { integration = integration.name; success = true; error = none; timestamp = time })
safe_execute integration time (thrown e) =
    ok
      (record { integration = integration.name; success = false; error = some e; timestamp = time })
safe_execute integration time out_of_fuel = out_of_fuel
