-- ===== src/Tests/Provider.antt =====
-- A provider whose client is over one plain integration, and a page with an api integration.
use iforevents_sdks.Prelude.{String, ◌≡◌, refl, true, false, none, List, [], ◌∷◌}
use iforevents_sdks.Js.Value.{empty}
use iforevents_sdks.Exec.{Outcome, ok}
use iforevents_sdks.Types.{no_hooks}
use iforevents_sdks.Storage.{Entries}
use iforevents_sdks.Integration.{base_integration}
use iforevents_sdks.Api.{State}
use iforevents_sdks.Api.Queue.Drains.{Accounts}
use iforevents_sdks.Api.Queue.Posts.{OnlyBatches}
use iforevents_sdks.Facade.{Member, Facade}
use iforevents_sdks.Facade.FanOut.{AllEnd}
use iforevents_sdks.Facade.Lifecycle.{IsClosed}
use iforevents_sdks.Browser.{Window, Browser, visibility_change}
use iforevents_sdks.Browser.Beacon.{client_with, visibility_change-Accounts}
use iforevents_sdks.Provider.{Provider, made, compute, render}
use iforevents_sdks.Provider.Hooks.{Component, use_iforevents, use_method, render_within}
use iforevents_sdks.Provider.Hooks.Stable.{render_within_again}
use iforevents_sdks.Provider.Life.{keyed, cleaned, cleanup-IsClosed}
use iforevents_sdks.Tests.{kept_settles, kept, running}
use iforevents_sdks.Tests.Facade.{clock}

abbrev open_facade : {S : Type 0} → List (Member S) → Facade S
open_facade members = record {
  integrations = members;
  traits = empty;
  initialized = true;
  context_provider = λ n. none;
  contexts = 0;
  fan_outs = 0;
  observed = [];
}

abbrev client : {S : Type 0} → List (Member S) → Browser S
client members = record {
  iforevents = open_facade members;
  api = none;
  ready = ok tt;
  identifying = ok tt;
  last_path = "/";
  window = none;
}

abbrev plain : Member (Unit {0})
plain = record { behaviour = base_integration no_hooks "Plain"; state = tt }

abbrev create : String → Outcome (Browser (Unit {0}))
create key = ok (client (plain ∷ []))

cleanup-IsClosed_example :
    (render create (keyed create clock "pk") (cleaned create clock "pk")
      ≡ (ok (made 0), cleaned create clock "pk"))
    × ((c : Browser (Unit {0})) × (((cleaned create clock "pk").clients ≡ c ∷ [])
          × IsClosed clock c.iforevents))
unfolding AllEnd
cleanup-IsClosed_example =
    cleanup-IsClosed create clock "pk" (client (plain ∷ [])) refl refl refl (tt, tt)

abbrev shop : Window
shop = record { href = "/"; pathname = "/"; referrer = ""; title = "Shop"; hidden = false }

abbrev bare : Browser (State Entries)
bare = client []

visibility_change-Accounts_example :
    (after : State Entries) × ((visibility_change
          (client_with kept bare (record shop { hidden = true }) running [])
        ≡ (ok tt, client_with kept bare (record shop { hidden = true }) after []))
      × OnlyBatches kept true running.sent after
      × Accounts kept running (ok tt) after)
visibility_change-Accounts_example =
    visibility_change-Accounts kept kept_settles bare shop running []

abbrev unrendered : Provider (Unit {0}) × Component
unrendered =
    (record { clients = []; created = none; memo = none }, record { memo = none; bound = 0 })

render_within_again_example :
    let after = (render_within create (keyed create clock "pk") unrendered).1 in
    render_within create (keyed create clock "pk") after ≡ (ok 0, after)
unfolding render_within render compute use_iforevents use_method
render_within_again_example =
    render_within_again create (keyed create clock "pk") unrendered.0 unrendered.1 0 refl
