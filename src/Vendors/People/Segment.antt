-- ===== src/Vendors/People/Segment.antt =====
-- js/packages/segment/src/node.ts: the messages of the client name the user, or somebody anonymous.
use iforevents_sdks.Prelude.{
  sym, append-nil, String, ◌≡◌, refl, ap, ◌∙◌, true, false, Option, none, some, List, [], ◌∷◌, ◌==◌,
}
use iforevents_sdks.Js.Value.{Properties, get}
use iforevents_sdks.Types.{TrackEvent}
use iforevents_sdks.Vendors.{Call, Vendor, call, with_client}
use iforevents_sdks.Vendors.SegmentNode
use iforevents_sdks.Vendors.People.{
  PersonCall, identified, tracked, viewed, forgotten, Whom, anonymous, whom, perform, IsNamed,
  NamesSomebody, IsQuiet, Attributed, Attributes,
}
use iforevents_sdks.Vendors.People.Readers.{whom_in, whom_in-put, read_segment}

-- The id of somebody unknown.
abbrev pub fallback : Option String → Whom
fallback none = anonymous "server"
fallback (some id) = anonymous id

whom_in-who :
    (person anonymous_id : Option String)
    → IsNamed person
    → whom_in "userId" "anonymousId" (SegmentNode.who person anonymous_id)
      ≡ whom (fallback anonymous_id) person
unfolding whom_in SegmentNode.who get
whom_in-who none none n = refl
whom_in-who none (some d) n = refl
whom_in-who (some id) anonymous_id n = rw (SegmentNode.who, n) refl

-- A message names whom its first entries name.
whom_in-message :
    (key name : String) (id properties : Properties) (timestamp : String)
    → (key == "userId") ≡ false
    → (key == "anonymousId") ≡ false
    → whom_in "userId" "anonymousId" (SegmentNode.message id key name properties timestamp)
      ≡ whom_in "userId" "anonymousId" id
whom_in-message key name id properties timestamp e f =
    whom_in-put "userId" "anonymousId" "timestamp" _ _ refl refl
    ∙ whom_in-put "userId" "anonymousId" "properties" _ _ refl refl
    ∙ whom_in-put "userId" "anonymousId" key _ id e f

message-who :
    (key name : String) (properties : Properties) (timestamp : String)
    (person anonymous_id : Option String)
    → (key == "userId") ≡ false
    → (key == "anonymousId") ≡ false
    → IsNamed person
    → whom_in "userId" "anonymousId"
        (SegmentNode.message (SegmentNode.who person anonymous_id) key name properties timestamp)
      ≡ whom (fallback anonymous_id) person
message-who key name properties timestamp person anonymous_id e f n =
    whom_in-message key name (SegmentNode.who person anonymous_id) properties timestamp e f
    ∙ whom_in-who person anonymous_id n

module _ (options : SegmentNode.Options) (vendor : Vendor) where
  track-Attributed :
      IsQuiet options.hooks
      → (event : TrackEvent) (person : Option String) (calls : List Call) → IsNamed person
      → Attributed read_segment
          (fallback options.anonymous_id)
          (tracked event ∷ [])
          person
          calls
          (SegmentNode.track options vendor event
            (record { client = true; person = person; calls = calls })).1
  unfolding SegmentNode.track call with_client
  track-Attributed quiet event person calls n = rw (quiet.track event) (record {
    client = refl;
    last = refl;
    new = _;
    logged = refl;
    people =
        ap (λ w. w ∷ [])
          (message-who "event" event.name _ _ person options.anonymous_id refl refl n);
  })

  pub segment-Attributes :
      IsQuiet options.hooks
      → Attributes read_segment
          (fallback options.anonymous_id)
          (SegmentNode.integration options vendor)
          (λ c. Unit)
  unfolding SegmentNode.identify SegmentNode.page SegmentNode.reset call with_client whom_in get
  segment-Attributes quiet = record { step = step }
    where
      step :
          (c : PersonCall) (person : Option String) (calls : List Call)
          → IsNamed person
          → NamesSomebody c
          → Unit {0}
          → Attributed read_segment
              (fallback options.anonymous_id)
              (c ∷ [])
              person
              calls
              (perform
                (SegmentNode.integration options vendor)
                c
                (record { client = true; person = person; calls = calls })).1
      step (identified event) person calls n m h =
          rw (quiet.identify event)
            (record { client = refl; last = refl; new = _; logged = refl; people = refl })
      step (tracked event) person calls n m h = track-Attributed quiet event person calls n
      step (viewed event) person calls n m h = rw (quiet.page event) (record {
        client = refl;
        last = refl;
        new = _;
        logged = refl;
        people =
            ap (λ w. w ∷ [])
              (message-who "name" event.name _ _ person options.anonymous_id refl refl n);
      })
      step forgotten person calls n m h = rw quiet.reset (record {
        client = refl;
        last = refl;
        new = [];
        logged = sym (append-nil calls);
        people = refl;
      })
