-- ===== src/Node/Process.antt =====
-- The life of a server's client.
use iforevents_sdks.Prelude.{
  String, ◌≡◌, refl, ◌∙◌, ap, true, false, none, some, List, [], ◌∷◌, append-nil, arith, Bool-cases,
  inl, inr,
}
use iforevents_sdks.Js.Value.{Properties, get}
use iforevents_sdks.Flatten.Flat.{IsDistinct}
use iforevents_sdks.Flatten.Leaves.{or_else, get-assign, last_distinct}
use iforevents_sdks.Exec.{Outcome, ok, thrown, out_of_fuel, then_run, pure}
use iforevents_sdks.Types.{IntegrationResult}
use iforevents_sdks.Api.{Config}
use iforevents_sdks.Api.Construct.{RawConfig, construct}
use iforevents_sdks.Facade.{Member, Facade, Clock, new_facade}
use iforevents_sdks.Facade
use iforevents_sdks.Facade.Lifecycle.{init_opens}
use iforevents_sdks.Facade.FanOut.{AllEnd, Isolated}
use iforevents_sdks.Node.{
  Host, host_context, node_context, node_config, NodeIforevents, NodeOptions, node_facade, start,
  create_iforevents, node_shutdown, before_exit,
}

-- The extra properties override what the host says of itself, and nothing else is changed.
pub get-node_context :
    (k : String) (host : Host) (extra : Properties)
    → IsDistinct extra
    → get k (node_context host extra) ≡ or_else (get k extra) (get k (host_context host))
unfolding node_context
get-node_context k host extra h =
    get-assign k (host_context host) extra
    ∙ ap (λ o. or_else o (get k (host_context host))) (last_distinct k extra h)

module _ {S : Type 0} (clock : Clock) where
  after_pure :
      {A : Type 0} (o : Outcome A) (c : NodeIforevents S) → (then_run o (λ _. pure tt) c).1 ≡ c
  after_pure (ok a) c = refl
  after_pure (thrown e) c = refl
  after_pure out_of_fuel c = refl

  is_stopped : (c : NodeIforevents S) → (node_shutdown clock c).1.stopped ≡ true
  unfolding node_shutdown
  is_stopped c = elim (Bool-cases c.stopped) [
    | inl y ↦ rw y refl
    | inr n ↦ rw n (ap (λ (d : NodeIforevents S). d.stopped) (after_pure _ _))
  ]

  stays : (c : NodeIforevents S) → c.stopped ≡ true → node_shutdown clock c ≡ (ok tt, c)
  unfolding node_shutdown
  stays c h = ground arith

  -- Once a client has been shut down, its `shutdown` and the exit of the process do nothing more:
  -- no integration is called again.
  pub node_shutdown_once :
      (c : NodeIforevents S)
      → let d = (node_shutdown clock c).1 in
        (node_shutdown clock d ≡ (ok tt, d))
        × ((before_exit clock true d) ≡ (ok tt, d))
        × (d.stopped ≡ true)
  unfolding before_exit
  node_shutdown_once c =
      let same = stays (node_shutdown clock c).1 (is_stopped c) in
      (same, rw same refl, is_stopped c)

module _ {S : Type 0} (host : Host) (clock : Clock) (new_api : Config → Member S) where
  -- Where the configuration is accepted and every integration comes to an end with `init`, the
  -- client is made with the facade open and not stopped, the api integration first, and each
  -- integration initialized in isolation.
  pub create_iforevents_opens :
      (options : NodeOptions S) (raw : RawConfig) (config : Config)
      → options.disable_api ≡ false
      → construct (node_config host raw) ≡ ok config
      → AllEnd (λ i. i.init) (new_api config ∷ options.integrations)
      → (c : NodeIforevents S) × (create_iforevents host clock new_api options raw ≡ ok c)
        × (c.iforevents.initialized ≡ true)
        × (c.stopped ≡ false)
        × ((rs : List IntegrationResult) × Isolated
              (λ i. i.init)
              (new_api config ∷ options.integrations)
              rs
              c.iforevents.integrations)
  unfolding create_iforevents start new_facade
  create_iforevents_opens options raw config on good ends =
      let before : Facade S = node_facade host clock new_api options (some (new_api config)) in
      let (opened, (rs, made, isolated)) = init_opens clock [] none before (rw append-nil ends) in
      let client : NodeIforevents S = record {
        iforevents = (Facade.init clock [] none before).1;
        stopped = false;
      } in
      let inits : Isolated (λ i. i.init) (new_api config ∷ options.integrations) rs
          client.iforevents.integrations =
        rw append-nil at isolated in
      (client, rw (on, good, made) refl, opened, refl, (rs, inits))
