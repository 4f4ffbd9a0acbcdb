-- ===== src/Browser/Beacon.antt =====
-- The flush of the api integration when a page hides.
use iforevents_sdks.Prelude.{◌≡◌, refl, true, some, List, ◌∷◌}
use iforevents_sdks.Exec.{ok}
use iforevents_sdks.Api.{Env, State}
use iforevents_sdks.Api.Queue.{flush}
use iforevents_sdks.Api.Request.Ends.{Settles}
use iforevents_sdks.Api.Queue.Drains.{Accounts, flush-Accounts}
use iforevents_sdks.Api.Queue.Posts.{OnlyBatches, flush-OnlyBatches}
use iforevents_sdks.Facade.{Member}
use iforevents_sdks.Facade.Lifecycle.{api_member}
use iforevents_sdks.Browser.{Browser, Window, beacon, beacon_flush, visibility_change}

module _ {S : Type 0} (env : Env S) where
  -- A client whose facade has an api integration, and others, in a window.
  abbrev pub client_with :
      Browser (State S) → Window → State S → List (Member (State S)) → Browser (State S)
  client_with b w s others = record b {
    iforevents = record b.iforevents { integrations = api_member env s ∷ others };
    api = some (flush env true);
    window = some w;
  }

  -- When a page hides whose client has an api integration, and every fetch and the body of every
  -- response settles, the listener ends without an exception: it sends nothing but posts of batches
  -- with `keepalive`, the api has then accepted a first part of the queue, in order and once, the
  -- rest of the queue is as `Leftover` says, and nothing of the client changes but the state of the
  -- api integration.
  pub visibility_change-Accounts :
      (settles : Settles env) (b : Browser (State S)) (w : Window) (s : State S)
      (others : List (Member (State S)))
      → (after : State S) × ((visibility_change
              (client_with b (record w { hidden = true }) s others)
            ≡ (ok tt, client_with b (record w { hidden = true }) after others))
          × OnlyBatches env true s.sent after
          × Accounts env s (ok tt) after)
  unfolding visibility_change beacon beacon_flush
  visibility_change-Accounts settles b w s others =
      let after : State S = (flush env true s).1 in
      let a = flush-Accounts env settles true s in
      (
        after,
        (
          refl,
          flush-OnlyBatches env true s,
          record {
            ends = tt;
            first = a.first;
            rest = a.rest;
            split = a.split;
            accepted = a.accepted;
            left = a.left;
            identity = a.identity;
          },
        ),
      )
