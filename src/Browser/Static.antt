-- ===== src/Browser/Static.antt =====
-- js/packages/browser/src/static.ts and iife.ts: the class that a script tag gives to a page, and
-- the queue `window.iforevents`, whose calls are of the methods and the types that it documents.
pub mod Replay
use iforevents_sdks.Prelude.{
  ℕ, ◌+◌, String, Bool, true, false, Option, none, some, List, [], ◌∷◌, ◌++◌, ◌==◌, if◌then◌else◌,
}
use Prim.Native.String.{◌++◌ as str_append}
use iforevents_sdks.Js.Number.{Number}
use iforevents_sdks.Js.Value.{Value, Properties}
use iforevents_sdks.Errors.{Error, other}
use iforevents_sdks.Exec.{Outcome, ok, thrown, out_of_fuel, Exec, ◌>>=◌, ◌>>◌, pure}
use iforevents_sdks.Types.{IntegrationResult}
use iforevents_sdks.Api.{truthy}
use iforevents_sdks.Facade.{Clock, PageOptions}
use iforevents_sdks.Browser.{Browser, PageArgument}
use iforevents_sdks.Browser

-- A call `[method, ...args]`; `unknown` has a method that the class does not have. Calls of the
-- other functions of the class, `init`, `need`, `drainQueue` and `_resetForTests`, are left out.
pub data QueuedCall : Type 0 where
  track : String → Option Properties → QueuedCall
  page : PageArgument → Option Properties → PageOptions → QueuedCall
  identify : String → Option Properties → QueuedCall
  reset flush : QueuedCall
  unknown : String → QueuedCall

-- `window.iforevents`: not there, an array, or the object whose `push` applies a call.
pub data Queue : Type 0 where
  unset : Queue
  waiting : List QueuedCall → Queue
  live : Queue

-- The static fields, and the page: whether there is a window, its queue, whether a call
-- of the chain of those applied has never come to an end, and how often it has warned.
pub record Static (S : Type 0) : Type 0 where
  pub client : Option (Browser S)
  pub window : Bool
  pub queue : Queue
  pub stuck : Bool
  pub warned : ℕ

-- `Array.isArray(w.iforevents) ? w.iforevents : []`
abbrev pub pending : Queue → List QueuedCall
pending (waiting calls) = calls
pending q = []

module _ {S : Type 0} where
  -- A call of the client.
  abbrev pub on_client :
      Browser S
      → Exec (Browser S) (List IntegrationResult)
      → Exec (Static S) (List IntegrationResult)
  on_client b call s = ((call b).0, record s { client = some (call b).1 })

  -- `need`, and a call of what it gives.
  unfoldable pub need :
      String → Exec (Browser S) (List IntegrationResult) → Exec (Static S) (List IntegrationResult)
  need method call s = elim s.client [
    | none ↦ (thrown (other (str_append "[iforevents] call init before " method)), s)
    | some b ↦ on_client b call s
  ]

  -- `client ? client.flush() : Promise.resolve([])`
  unfoldable pub flush_client :
      Exec (Browser S) (List IntegrationResult) → Exec (Static S) (List IntegrationResult)
  flush_client call s = elim s.client [ none ↦ (ok [], s) | some b ↦ on_client b call s ]

  module _ (clock : Clock) (text : Value → String) where
    -- The method of the client that a call is for.
    unfoldable pub call_of : QueuedCall → Exec (Browser S) (List IntegrationResult)
    call_of (track name properties) = Browser.track clock name properties
    call_of (page argument properties options) = Browser.page clock text argument properties options
    call_of (identify custom_id traits) = Browser.identify clock custom_id traits
    call_of reset = Browser.reset clock
    call_of flush = Browser.flush clock
    call_of (unknown method) = pure []

    -- The static methods.
    unfoldable pub run_static : QueuedCall → Exec (Static S) (List IntegrationResult)
    unfolding need flush_client call_of
    run_static (track name properties) = need "track" (call_of (track name properties))
    run_static (page argument properties options) =
        need "page" (call_of (page argument properties options))
    run_static (identify custom_id traits) = need "identify" (call_of (identify custom_id traits))
    run_static reset = need "reset" (call_of reset)
    run_static flush = flush_client (call_of flush)
    run_static (unknown method) = pure []

    -- The next link of the chain: the call, and a warning where it rejects.
    abbrev pub linked : Outcome (List IntegrationResult) → Static S → Static S
    linked (ok results) s = s
    linked (thrown e) s = record s { warned = s.warned + 1 }
    linked out_of_fuel s = record s { stuck = true }

    abbrev pub link : Bool → QueuedCall → Static S → Static S
    link true call s = s
    link false call s = linked (run_static call s).0 (run_static call s).1

    -- `apply` of `drainQueue`; a link never runs that stands behind one that has not come to an end.
    unfoldable pub apply : QueuedCall → Static S → Static S
    unfolding run_static
    apply (unknown method) s = s
    apply call s = link s.stuck call s

    unfoldable pub apply_all : List QueuedCall → Static S → Static S
    unfolding apply
    apply_all [] s = s
    apply_all (call ∷ calls) s = apply_all calls (apply call s)

    -- `drainQueue`
    unfoldable pub drain_queue : Static S → Static S
    unfolding apply_all
    drain_queue s = elim s.window [
      | true ↦ apply_all (pending s.queue) (record s { queue = live; stuck = false })
      | false ↦ s
    ]

    -- `window.iforevents.push`, by the page; it throws where there is no queue.
    unfoldable pub push : QueuedCall → Static S → Static S
    unfolding apply
    push call s = elim s.queue [
      | unset ↦ s
      | waiting calls ↦ record s { queue = waiting (calls ++ call ∷ []) }
      | live ↦ apply call s
    ]

    abbrev pub with_client : Outcome (Browser S) → Exec (Static S) (Unit {0})
    with_client (ok b) s = (ok tt, drain_queue (record s { client = some b }))
    with_client (thrown e) s = (thrown e, s)
    with_client out_of_fuel s = (out_of_fuel, s)

    -- `init`, where `create` is `createBrowserIforevents` with the options.
    unfoldable pub init : (String → Outcome (Browser S)) → String → Exec (Static S) (Unit {0})
    unfolding drain_queue
    init create project_key s = elim s.client [
      | some b ↦ (ok tt, s)
      | none ↦
          if project_key == ""
          then (thrown (other "[iforevents] init needs the project key"), s)
          else with_client (create project_key) s
    ]

    abbrev pub forgotten :
        Outcome (List IntegrationResult) → Static S → Outcome (Unit {0}) × Static S
    forgotten (ok results) s = (ok tt, record s { client = none })
    forgotten (thrown e) s = (thrown e, s)
    forgotten out_of_fuel s = (out_of_fuel, s)

    -- `_resetForTests`
    unfoldable pub reset_for_tests : Exec (Static S) (Unit {0})
    reset_for_tests s = elim s.client [
      | none ↦ (ok tt, s)
      | some b ↦ let (outcome, s') = on_client b (Browser.shutdown clock) s in forgotten outcome s'
    ]

-- The attributes `data-...` of the script.
pub record Dataset : Type 0 where
  pub project_key : Option String
  pub base_url : Option String
  pub auto_track : Option String
  pub debug : Option String
  pub batch_size : Option String
  pub flush_interval : Option String
  pub app_version : Option String

-- The options that `autoInit` passes to `init`.
pub record ScriptOptions : Type 0 where
  pub base_url : Option String
  pub auto_track : Option Bool
  pub debug : Option Bool
  pub batch_size : Option Number
  pub flush_interval : Option Number
  pub app_version : Option String

-- `if (text === "true") option = true;`
abbrev pub flag_of : Option String → Option Bool
flag_of none = none
flag_of (some text) = if text == "true" then some true else none

abbrev pub number_of : (String → Number) → Option String → Option Number
number_of to_number none = none
number_of to_number (some text) = some (to_number text)

-- The options of a script, given `Number`.
unfoldable pub script_options : (String → Number) → Dataset → ScriptOptions
script_options to_number d = record {
  base_url = truthy d.base_url;
  auto_track = flag_of d.auto_track;
  debug = flag_of d.debug;
  batch_size = number_of to_number (truthy d.batch_size);
  flush_interval = number_of to_number (truthy d.flush_interval);
  app_version = truthy d.app_version;
}

-- `autoInit`: what it passes to `init`, if it calls it; there may be no document and no script.
unfoldable pub auto_init :
    (String → Number) → Option (Option Dataset) → Option (String × ScriptOptions)
unfolding script_options
auto_init to_number none = none
auto_init to_number (some none) = none
auto_init to_number (some (some d)) = elim (truthy d.project_key) [
  | none ↦ none
  | some key ↦ some (key, script_options to_number d)
]
