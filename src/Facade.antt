-- ===== src/Facade.antt =====
-- js/packages/core/src/iforevents.ts: the facade, which hands every call to each integration. The
-- integrations share no object; their states are of one type, a sum where the classes differ.
-- A call is run to its end before the next, and `onResult` does not throw.
pub mod FanOut
pub mod Lifecycle
use iforevents_sdks.Prelude.{
  ℕ, suc, ◌+◌, String, Bool, true, false, Option, none, some, List, [], ◌∷◌, ◌++◌, ◌==◌,
  if◌then◌else◌,
}
use iforevents_sdks.Js.Value.{Value, Properties, empty, assign}
use iforevents_sdks.Flatten.{flatten}
use iforevents_sdks.Exec.{Outcome, ok, thrown, out_of_fuel, Exec, ◌>>=◌, ◌>>◌, pure, gets, modify}
use iforevents_sdks.Types.{
  track as track_type, IdentifyEvent, TrackEvent, PageEvent, IntegrationResult,
}
use iforevents_sdks.Integration.{Integration, safe_execute}

-- What the n-th call of the provider gives: `none` for a rejection, `some none` for null.
abbrev pub ContextProvider : Type 0
ContextProvider = ℕ → Option (Option Properties)

-- An integration that is registered, and the state that it is in.
pub record Member (S : Type 0) : Type 0 where
  pub behaviour : Integration S
  pub state : S

-- The fields of the class; then the calls of the context provider, the fan-outs made, and what
-- `onResult` was called with.
pub record Facade (S : Type 0) : Type 0 where
  pub integrations : List (Member S)
  pub traits : Properties
  pub initialized : Bool
  pub context_provider : ContextProvider
  pub contexts : ℕ
  pub fan_outs : ℕ
  pub observed : List (List IntegrationResult)

-- The times: that of the n-th call, and that at which the i-th integration is done with it.
pub record Clock : Type 0 where
  pub now : ℕ → String
  pub finished : ℕ → ℕ → String

pub record PageOptions : Type 0 where
  pub navigation_type : Option String
  pub to_route : Option String
  pub previous_route : Option String

-- `name || "page_view"`
abbrev pub page_name : Option String → String
page_name none = "page_view"
page_name (some name) = if name == "" then "page_view" else name

-- `(await this.contextProvider()) ?? {}`, and `{}` for a rejection
abbrev pub provided : Option (Option Properties) → Properties
provided none = empty
provided (some none) = empty
provided (some (some p)) = p

-- `Promise.all` of one more result.
abbrev pub both : {A : Type 0} → Outcome A → Outcome (List A) → Outcome (List A)
both (ok a) (ok rest) = ok (a ∷ rest)
both (ok a) (thrown e) = thrown e
both (ok a) out_of_fuel = out_of_fuel
both (thrown e) rest = thrown e
both out_of_fuel rest = out_of_fuel

abbrev observe : Outcome (List IntegrationResult) → List (List IntegrationResult)
observe (ok results) = results ∷ []
observe o = []

module _ {S : Type 0} where
  -- `new Iforevents(options)`
  unfoldable pub new_facade : List (Member S) → ContextProvider → Facade S
  new_facade integrations context = record {
    integrations = integrations;
    traits = empty;
    initialized = false;
    context_provider = context;
    contexts = 0;
    fan_outs = 0;
    observed = [];
  }

  -- `isInitialized`
  abbrev pub is_initialized : Facade S → Bool
  is_initialized s = s.initialized

  -- `currentTraits`, a copy.
  abbrev pub current_traits : Facade S → Properties
  current_traits s = assign empty s.traits

  -- `addIntegration`
  unfoldable pub add_integration : Member S → Facade S → Facade S
  add_integration member s = record s { integrations = s.integrations ++ member ∷ [] }

  abbrev find : (Member S → Bool) → List (Member S) → Option (Member S)
  find test [] = none
  find test (m ∷ ms) = if test m then some m else find test ms

  -- `getIntegration` with a name
  unfoldable pub get_integration : String → Facade S → Option (Member S)
  get_integration name s = find (λ m. m.behaviour.name == name) s.integrations

  -- `safeContext`
  unfoldable pub safe_context : Exec (Facade S) Properties
  safe_context s =
      (ok (provided (s.context_provider s.contexts)), record s { contexts = s.contexts + 1 })

  -- The promises of `fanOut`, from the i-th integration.
  unfoldable pub run_all :
      (Integration S → Exec S (Unit {0}))
      → (ℕ → String)
      → ℕ
      → List (Member S)
      → Outcome (List IntegrationResult) × List (Member S)
  unfolding safe_execute
  run_all action finished i [] = (ok [], [])
  run_all action finished i (m ∷ ms) =
      let (outcome, state) = action m.behaviour m.state in
      let (results, rest) = run_all action finished (i + 1) ms in
      (
        both (safe_execute m.behaviour (finished i) outcome) results,
        record m { state = state } ∷ rest,
      )

  module _ (clock : Clock) where
    -- `fanOut`
    unfoldable pub fan_out :
        (Integration S → Exec S (Unit {0})) → Exec (Facade S) (List IntegrationResult)
    unfolding run_all
    fan_out action s =
        let (results, members) = run_all action (clock.finished s.fan_outs) 0 s.integrations in
        (
          results,
          record s {
            integrations = members;
            fan_outs = s.fan_outs + 1;
            observed = s.observed ++ observe results;
          },
        )

    -- `if (!this.ready(...)) return [];` before the rest of a call.
    unfoldable pub when_ready :
        Exec (Facade S) (List IntegrationResult) → Exec (Facade S) (List IntegrationResult)
    when_ready call s = elim s.initialized [ true ↦ call s | false ↦ (ok [], s) ]

    unfoldable pub init :
        List (Member S) → Option ContextProvider → Exec (Facade S) (List IntegrationResult)
    init more context = do
      modify λ s. record s { integrations = s.integrations ++ more }
      modify
          λ s. elim context [ none ↦ s | some provider ↦ record s { context_provider = provider } ]
      results ← fan_out λ i. i.init
      modify λ s. record s { initialized = true }
      pure results

    unfoldable pub identify : String → Properties → Exec (Facade S) (List IntegrationResult)
    identify custom_id traits =
        if custom_id == ""
        then pure []
        else when_ready (do
          context ← safe_context
          let merged = flatten (assign (assign empty context) traits)
          results ← fan_out λ i. i.identify (record { custom_id = custom_id; traits = merged })
          modify λ s. record s { traits = merged }
          pure results)

    unfoldable pub track : String → Properties → Exec (Facade S) (List IntegrationResult)
    track name properties =
        if name == ""
        then pure []
        else when_ready (do
          timestamp ← gets λ s. clock.now s.fan_outs
          fan_out λ i. i.track (record {
            name = name;
            kind = track_type;
            properties = flatten properties;
            timestamp = timestamp;
          }))

    unfoldable pub page :
        Option String → Properties → PageOptions → Exec (Facade S) (List IntegrationResult)
    page name properties options = when_ready (do
      timestamp ← gets λ s. clock.now s.fan_outs
      fan_out λ i. i.page (record {
        name = page_name name;
        properties = flatten properties;
        navigation_type = options.navigation_type;
        to_route = options.to_route;
        previous_route = options.previous_route;
        timestamp = timestamp;
      }))

    abbrev pub screen :
        Option String → Properties → PageOptions → Exec (Facade S) (List IntegrationResult)
    screen name properties options = page name properties options

    unfoldable pub reset : Exec (Facade S) (List IntegrationResult)
    reset =
        when_ready
          (do results ← fan_out λ i. i.reset; modify λ s. record s { traits = empty }; pure results)

    unfoldable pub flush : Exec (Facade S) (List IntegrationResult)
    flush = fan_out λ i. i.flush

    unfoldable pub shutdown : Exec (Facade S) (List IntegrationResult)
    shutdown = do
      results ← fan_out λ i. i.shutdown
      modify λ s. record s { initialized = false }
      pure results
