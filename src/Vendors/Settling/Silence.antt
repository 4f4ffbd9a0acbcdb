-- ===== src/Vendors/Settling/Silence.antt =====
-- What a facade makes of an integration that never answers, and of Mixpanel's on a server where its
-- `init` has failed.
use iforevents_sdks.Prelude.{
  ℕ, ◌+◌, String, ◌≡◌, refl, ◌∙◌, ap, true, false, none, some, List, [], ◌∷◌, ◌++◌, ◌==◌,
}
use iforevents_sdks.Js.Value.{Properties}
use iforevents_sdks.Exec.{Outcome, ok, thrown, out_of_fuel, Exec}
use iforevents_sdks.Types.{TrackEvent, PageEvent}
use iforevents_sdks.Integration.{Integration, safe_execute}
use iforevents_sdks.Facade.{
  Member, Facade, Clock, PageOptions, both, run_all, fan_out, track, page, when_ready,
}
use iforevents_sdks.Facade.FanOut.{alone}
use iforevents_sdks.Vendors.{Vendor, Adapter, page_as_track}
use iforevents_sdks.Vendors.MixpanelNode

both_silent :
    {S : Type 0} (i : Integration S) (time : String) (o : Outcome (Unit {0}))
    → both (safe_execute i time o) out_of_fuel ≡ out_of_fuel
unfolding safe_execute
both_silent i time (ok a) = refl
both_silent i time (thrown e) = refl
both_silent i time out_of_fuel = refl

module _ {S : Type 0} (action : Integration S → Exec S (Unit {0})) (finished : ℕ → String) where
  -- One integration that does not answer keeps the promises of all from resolving.
  run_all_silent :
      (i : ℕ) (before : List (Member S)) (m : Member S) (after : List (Member S))
      → (alone action m).0 ≡ out_of_fuel
      → (run_all action finished i (before ++ m ∷ after)).0 ≡ out_of_fuel
  unfolding run_all safe_execute
  run_all_silent i [] m after h = rw h refl
  run_all_silent i (b ∷ before) m after h =
      rw (run_all_silent (i + 1) before m after h)
        (both_silent b.behaviour (finished i) (alone action b).0)

fan_out_silent :
    {S : Type 0} (clock : Clock) (action : Integration S → Exec S (Unit {0})) (s : Facade S)
    (before : List (Member S)) (m : Member S) (after : List (Member S))
    → s.integrations ≡ before ++ m ∷ after
    → (alone action m).0 ≡ out_of_fuel
    → (fan_out clock action s).0 ≡ out_of_fuel
unfolding fan_out
fan_out_silent clock action s before m after e h =
    ap (λ ms. (run_all action (clock.finished s.fan_outs) 0 ms).0) e
    ∙ run_all_silent action (clock.finished s.fan_outs) 0 before m after h

module _ (options : MixpanelNode.Options) (vendor : Vendor) where
  -- Without a client nobody calls back.
  track_silent :
      (event : TrackEvent) (s : Adapter)
      → options.hooks.on_track event ≡ none
      → s.client ≡ false
      → (MixpanelNode.track options vendor event s).0 ≡ out_of_fuel
  unfolding MixpanelNode.track MixpanelNode.call_back
  track_silent event s h e = rw (h, e) refl

  page_silent :
      (event : PageEvent) (s : Adapter)
      → ((e : TrackEvent) → options.hooks.on_track e ≡ none)
      → options.hooks.on_page event ≡ none
      → s.client ≡ false
      → (MixpanelNode.page options vendor event s).0 ≡ out_of_fuel
  unfolding MixpanelNode.page
  page_silent event s ht hp e = rw hp (track_silent (page_as_track event) s (ht _) e)

  -- Where a facade is initialised, and among its integrations is Mixpanel's server-side one
  -- without a client, as it is after an `init` that failed, with hooks that do not throw, then `track`
  -- of an event with a name never resolves, and neither does `page`, whatever the other
  -- integrations do.
  pub facade_silent :
      (clock : Clock) (s : Facade Adapter) (before : List (Member Adapter)) (state : Adapter)
      (after : List (Member Adapter)) (name : String) (properties : Properties) (view : PageOptions)
      → s.initialized ≡ true
      → s.integrations
        ≡ before
          ++ record { behaviour = MixpanelNode.integration options vendor; state = state } ∷ after
      → state.client ≡ false
      → ((event : TrackEvent) → options.hooks.on_track event ≡ none)
      → ((event : PageEvent) → options.hooks.on_page event ≡ none)
      → (name == "") ≡ false
      → ((track clock name properties s).0 ≡ out_of_fuel)
        × ((page clock (some name) properties view s).0 ≡ out_of_fuel)
  unfolding track page when_ready
  facade_silent clock s before state after name properties view i e c ht hp n = (
    rw (n, i)
        (fan_out_silent clock _ (record s { initialized = true }) before
          (record { behaviour = MixpanelNode.integration options vendor; state = state }) after e
          (track_silent _ state (ht _) c)),
    rw (n, i)
        (fan_out_silent clock _ (record s { initialized = true }) before
          (record { behaviour = MixpanelNode.integration options vendor; state = state }) after e
          (page_silent _ state ht (hp _) c)),
  )
