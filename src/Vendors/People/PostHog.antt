-- ===== src/Vendors/People/PostHog.antt =====
-- js/packages/posthog/src/node.ts: the messages of the client name the user.
use iforevents_sdks.Prelude.{
  sym, append-nil, String, ◌≡◌, refl, ap, true, Option, none, some, List, [], ◌∷◌,
}
use iforevents_sdks.Js.Value.{get, put}
use iforevents_sdks.Types.{TrackEvent}
use iforevents_sdks.Vendors.{Call, Vendor, call, with_client}
use iforevents_sdks.Vendors.PostHogNode
use iforevents_sdks.Vendors.People.{
  PersonCall, identified, tracked, viewed, forgotten, Whom, user, whom, perform, IsNamed,
  NamesSomebody, IsQuiet, Attributed, Attributes,
}
use iforevents_sdks.Vendors.People.Readers.{whom_in, read_posthog}

-- The id of somebody unknown.
abbrev pub fallback : Option String → Whom
fallback none = user "server"
fallback (some id) = user id

user-who :
    (person anonymous_id : Option String)
    → user (PostHogNode.who person anonymous_id) ≡ whom (fallback anonymous_id) person
unfolding PostHogNode.who
user-who none none = refl
user-who none (some id) = refl
user-who (some id) anonymous_id = refl

module _ (options : PostHogNode.Options) (vendor : Vendor) where
  track-Attributed :
      IsQuiet options.hooks
      → (event : TrackEvent) (person : Option String) (calls : List Call) → IsNamed person
      → Attributed read_posthog
          (fallback options.anonymous_id)
          (tracked event ∷ [])
          person
          calls
          (PostHogNode.track options vendor event
            (record { client = true; person = person; calls = calls })).1
  unfolding PostHogNode.track call with_client whom_in get
  track-Attributed quiet event person calls n = rw (quiet.track event) (record {
    client = refl;
    last = refl;
    new = _;
    logged = refl;
    people = ap (λ w. w ∷ []) (user-who person options.anonymous_id);
  })

  pub posthog-Attributes :
      IsQuiet options.hooks
      → Attributes read_posthog
          (fallback options.anonymous_id)
          (PostHogNode.integration options vendor)
          (λ c. Unit)
  unfolding PostHogNode.identify PostHogNode.page PostHogNode.reset call with_client whom_in get put
  posthog-Attributes quiet = record { step = step }
    where
      step :
          (c : PersonCall) (person : Option String) (calls : List Call)
          → IsNamed person
          → NamesSomebody c
          → Unit {0}
          → Attributed read_posthog
              (fallback options.anonymous_id)
              (c ∷ [])
              person
              calls
              (perform
                (PostHogNode.integration options vendor)
                c
                (record { client = true; person = person; calls = calls })).1
      step (identified event) person calls n m h =
          rw (quiet.identify event)
            (record { client = refl; last = refl; new = _; logged = refl; people = refl })
      step (tracked event) person calls n m h = track-Attributed quiet event person calls n
      step (viewed event) person calls n m h = rw (quiet.page event) (record {
        client = refl;
        last = refl;
        new = _;
        logged = refl;
        people = ap (λ w. w ∷ []) (user-who person options.anonymous_id);
      })
      step forgotten person calls n m h = rw quiet.reset (record {
        client = refl;
        last = refl;
        new = [];
        logged = sym (append-nil calls);
        people = refl;
      })
