-- ===== src/Facade/Lifecycle.antt =====
-- The facade over its life: before `init` and after `shutdown`, the traits it remembers, and what
-- a call of it does to an api integration.
use iforevents_sdks.Prelude.{
  ℕ, ◌+◌, ◌<◌, ◌≤◌, String, ◌≡◌, refl, true, false, Option, none, List, [], ◌∷◌, ◌++◌, length, ◌==◌,
  arith, some,
}
use iforevents_sdks.Js.Number.{of_ℕ}
use iforevents_sdks.Js.Value.{Properties, empty, assign, entry, object, string}
use iforevents_sdks.Ids.{message_id}
use iforevents_sdks.Flatten.{flatten}
use iforevents_sdks.Exec.{ok, Exec}
use iforevents_sdks.Types.{track as track_type, IdentifyEvent, TrackEvent, IntegrationResult}
use iforevents_sdks.Integration.{Integration, api_integration}
use iforevents_sdks.Api.{Env, State}
use iforevents_sdks.Api.Calls
use iforevents_sdks.Api.Calls.Tracking.{track_waits}
use iforevents_sdks.Facade.{
  Member, Facade, Clock, PageOptions, run_all, fan_out, safe_context, when_ready, provided,
  identify, track, page, reset, shutdown, init, ContextProvider,
}
use iforevents_sdks.Facade.FanOut.{AllEnd, Isolated, fan_out-Isolated}

module _ {S : Type 0} (clock : Clock) where
  -- A facade of which `identify`, `track`, `page` and `reset` resolve with no result and change
  -- nothing. Its `flush` and `shutdown` still reach the integrations.
  pub record IsClosed (s : Facade S) : Type 0 where
    pub identify : (id : String) (p : Properties) → identify clock id p s ≡ (ok [], s)
    pub track : (name : String) (p : Properties) → track clock name p s ≡ (ok [], s)
    pub page :
        (name : Option String) (p : Properties) (o : PageOptions)
        → page clock name p o s ≡ (ok [], s)
    pub reset : reset clock s ≡ (ok [], s)

  not_initialized-IsClosed : (s : Facade S) → s.initialized ≡ false → IsClosed s
  unfolding identify track page reset when_ready
  not_initialized-IsClosed s h = record {
    identify = λ id p. ground arith;
    track = λ name p. ground arith;
    page = λ name p o. ground arith;
    reset = ground arith;
  }

  when_ready_open :
      (call : Exec (Facade S) (List IntegrationResult)) (s : Facade S)
      → s.initialized ≡ true
      → when_ready clock call s ≡ call s
  unfolding when_ready
  when_ready_open call s h = ground arith

  -- Where every integration comes to an end with `shutdown`, `identify`, `track`, `page` and
  -- `reset` of the facade that is left resolve with no result and change nothing, and all its
  -- integrations have been shut down in isolation.
  pub shutdown-IsClosed :
      (s : Facade S)
      → AllEnd (λ i. i.shutdown) s.integrations
      → IsClosed (shutdown clock s).1
        × ((rs : List IntegrationResult) × ((shutdown clock s).0 ≡ ok rs)
            × Isolated (λ i. i.shutdown) s.integrations rs (shutdown clock s).1.integrations)
  unfolding shutdown
  shutdown-IsClosed s h =
      let (rs, (e, isolated)) = fan_out-Isolated (λ i. i.shutdown) clock s h in
      rw e (not_initialized-IsClosed _ refl, (rs, refl, isolated))

  -- Where every integration, with those that are added, comes to an end with `init`, each is
  -- initialized in isolation, in order, the results are returned, and the facade is open.
  pub init_opens :
      (more : List (Member S)) (context : Option ContextProvider) (s : Facade S)
      → AllEnd (λ i. i.init) (s.integrations ++ more)
      → let t = (init clock more context s).1 in
        (t.initialized ≡ true)
        × ((rs : List IntegrationResult) × ((init clock more context s).0 ≡ ok rs)
            × Isolated (λ i. i.init) (s.integrations ++ more) rs t.integrations)
  unfolding init
  init_opens more none s h =
      let (rs, (e, isolated)) =
        fan_out-Isolated (λ i. i.init) clock (record s { integrations = s.integrations ++ more })
          h in
      rw e (refl, (rs, refl, isolated))
  init_opens more (some provider) s h =
      let (rs, (e, isolated)) =
        fan_out-Isolated (λ i. i.init) clock
          (record s { integrations = s.integrations ++ more; context_provider = provider }) h in
      rw e (refl, (rs, refl, isolated))

  -- The traits that `identify` hands out: the context, then those passed, flattened.
  abbrev pub merged : Properties → Facade S → Properties
  merged traits s =
      flatten (assign (assign empty (provided (s.context_provider s.contexts))) traits)

  abbrev pub identified : String → Properties → Facade S → IdentifyEvent
  identified id traits s = record { custom_id = id; traits = merged traits s }

  -- On an open facade, where every integration comes to an end with it, `identify` of an id that
  -- is not empty hands each integration the same event in isolation, whose traits are the context
  -- overridden by those passed, flattened; the facade remembers these traits.
  pub identify_remembers :
      (id : String) (traits : Properties) (s : Facade S)
      → (id == "") ≡ false
      → s.initialized ≡ true
      → AllEnd (λ i. i.identify (identified id traits s)) s.integrations
      → let t = (identify clock id traits s).1 in
        (t.traits ≡ merged traits s)
        × ((rs : List IntegrationResult) × ((identify clock id traits s).0 ≡ ok rs)
            × Isolated (λ i. i.identify (identified id traits s)) s.integrations rs t.integrations)
  unfolding identify safe_context
  identify_remembers id traits s given open_ h =
      let (rs, (e, isolated)) =
        fan_out-Isolated (λ i. i.identify (identified id traits s)) clock
          (record s { contexts = s.contexts + 1 }) h in
      rw (given, when_ready_open _ s open_, e) (refl, (rs, refl, isolated))

  fan_out_keeps :
      (action : Integration S → Exec S (Unit {0})) (s : Facade S)
      → s.initialized ≡ true
      → (fan_out clock action s).1.initialized ≡ true
  unfolding fan_out
  fan_out_keeps action s h = h

  -- On an open facade, where every integration comes to an end with it, `reset` resets each in
  -- isolation and forgets the traits, and the facade stays open.
  pub reset_forgets :
      (s : Facade S)
      → s.initialized ≡ true
      → AllEnd (λ i. i.reset) s.integrations
      → let t = (reset clock s).1 in
        (t.traits ≡ empty)
        × (t.initialized ≡ true)
        × ((rs : List IntegrationResult) × ((reset clock s).0 ≡ ok rs)
            × Isolated (λ i. i.reset) s.integrations rs t.integrations)
  unfolding reset
  reset_forgets s open_ h =
      let (rs, (e, isolated)) = fan_out-Isolated (λ i. i.reset) clock s h in
      rw (when_ready_open _ s open_, e)
        (refl, fan_out_keeps (λ i. i.reset) s open_, (rs, refl, isolated))

abbrev pub api_member : {S : Type 0} → Env S → State S → Member (State S)
api_member env t = record { behaviour = api_integration env; state = t }

abbrev pub track_event : {S : Type 0} → Clock → String → Properties → Facade S → TrackEvent
track_event clock name properties s = record {
  name = name;
  kind = track_type;
  properties = flatten properties;
  timestamp = clock.now s.fan_outs;
}

module _ {S : Type 0} (env : Env S) (clock : Clock) where
  -- On an open facade whose first integration is the api integration, whose queue stays below its
  -- batch size and within its cap, and whose hook does not throw, `track` of a name that is not
  -- empty puts one event at the end of that queue, sends nothing, and sets the timer. The event has
  -- the name, the type `track`, the flattened properties alone, the time and a new message id.
  pub track_queues :
      (name : String) (properties : Properties) (s : Facade (State S)) (t : State S)
      (others : List (Member (State S))) (n : ℕ)
      → (name == "") ≡ false
      → s.initialized ≡ true
      → s.integrations ≡ api_member env t ∷ others
      → env.hooks.on_track (track_event clock name properties s) ≡ none
      → env.config.batch_size ≡ of_ℕ n
      → length t.queue + 1 < n
      → length t.queue + 1 ≤ env.config.max_queue_size
      → (t' : State S) × (others' : List (Member (State S))) × ((track clock name properties
            s).1.integrations
          ≡ api_member env t' ∷ others')
        × (t'.queue
            ≡ t.queue
              ++ object (
                  entry "name" (string name) (
                    entry "type" (string "track") (
                      entry "properties" (object (flatten properties)) (
                        entry "created_at"
                          (string (clock.now s.fan_outs))
                          (entry "message_id" (string (message_id (env.random t.drawn))) empty)))))
                ∷ [])
        × (t'.sent ≡ t.sent)
        × (t'.timer ≡ true)
  unfolding track when_ready fan_out run_all
  track_queues name properties s t others n given open_ first hook size small room =
      let event = track_event clock name properties s in
      let (done, queue, sent, timer) = track_waits env event t n hook size small room in
      let same : (track clock name properties s).1.integrations
          ≡ api_member env (Calls.track env event t).1
            ∷ (run_all (λ i. i.track event) (clock.finished s.fan_outs) 1 others).1 =
        rw (given, open_, first) refl in
      ((Calls.track env event t).1, _, same, queue, sent, timer)
