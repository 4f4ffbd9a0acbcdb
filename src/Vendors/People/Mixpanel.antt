-- ===== src/Vendors/People/Mixpanel.antt =====
-- js/packages/mixpanel/src/node.ts: the calls of the client name the user.
use iforevents_sdks.Prelude.{
  sym, append-nil, String, ◌≡◌, refl, ap, ◌∙◌, true, false, Option, none, some, List, [], ◌∷◌,
}
use iforevents_sdks.Js.Value.{string, get, put, get-put, has}
use iforevents_sdks.Types.{TrackEvent}
use iforevents_sdks.Vendors.{Call, Vendor, call, page_as_track}
use iforevents_sdks.Vendors.MixpanelNode
use iforevents_sdks.Vendors.People.{
  PersonCall, identified, tracked, viewed, forgotten, nobody, whom, perform, IsNamed, NamesSomebody,
  IsQuiet, Attributed, Attributes,
}
use iforevents_sdks.Vendors.People.Readers.{
  whom_in, whom_in-put, get-assign-scalarize, page_properties_absent, read_mixpanel,
}

-- The events do not say by themselves whom they are about.
abbrev pub Allowed : PersonCall → Type 0
Allowed (tracked event) = has "distinct_id" event.properties ≡ false
Allowed (viewed event) = has "distinct_id" event.properties ≡ false
Allowed c = Unit

whom_in-properties :
    (options : MixpanelNode.Options) (vendor : Vendor) (event : TrackEvent) (person : Option String)
    → IsNamed person
    → has "distinct_id" event.properties ≡ false
    → whom_in "distinct_id" "distinct_id"
        (MixpanelNode.track_properties options vendor event person)
      ≡ whom nobody person
unfolding whom_in
whom_in-properties options vendor event none n h =
    whom_in-put "distinct_id" "distinct_id" "time" _ _ refl refl
    ∙ rw (get-assign-scalarize vendor.stringify "distinct_id" event.properties h) refl
whom_in-properties options vendor event (some id) n h =
    rw (n, get-put "distinct_id" "distinct_id" (string id)) refl

module _ (options : MixpanelNode.Options) (vendor : Vendor) where
  track-Attributed :
      IsQuiet options.hooks
      → (event : TrackEvent) (person : Option String) (calls : List Call) → IsNamed person
      → has "distinct_id" event.properties ≡ false
      → Attributed read_mixpanel nobody
          (tracked event ∷ [])
          person
          calls
          (MixpanelNode.track options vendor event
            (record { client = true; person = person; calls = calls })).1
  unfolding MixpanelNode.track call MixpanelNode.call_back
  track-Attributed quiet event person calls n h = rw (quiet.track event) (record {
    client = refl;
    last = refl;
    new = _;
    logged = refl;
    people = ap (λ w. w ∷ []) (whom_in-properties options vendor event person n h);
  })

  pub mixpanel-Attributes :
      IsQuiet options.hooks
      → Attributes read_mixpanel nobody (MixpanelNode.integration options vendor) Allowed
  unfolding MixpanelNode.identify MixpanelNode.page MixpanelNode.reset call MixpanelNode.call_back
      page_as_track whom_in get put
  mixpanel-Attributes quiet = record { step = step }
    where
      step :
          (c : PersonCall) (person : Option String) (calls : List Call)
          → IsNamed person
          → NamesSomebody c
          → Allowed c
          → Attributed read_mixpanel nobody
              (c ∷ [])
              person
              calls
              (perform
                (MixpanelNode.integration options vendor)
                c
                (record { client = true; person = person; calls = calls })).1
      step (identified event) person calls n m h =
          rw (quiet.identify event)
            (record { client = refl; last = refl; new = _; logged = refl; people = refl })
      step (tracked event) person calls n m h = track-Attributed quiet event person calls n h
      step (viewed event) person calls n m h = rw (quiet.page event) (
          let a =
            track-Attributed quiet (page_as_track event) person calls n
              (page_properties_absent "distinct_id" event.properties event h refl refl refl) in
          record {
            client = a.client;
            last = a.last;
            new = a.new;
            logged = a.logged;
            people = a.people;
          })
      step forgotten person calls n m h = rw quiet.reset (record {
        client = refl;
        last = refl;
        new = [];
        logged = sym (append-nil calls);
        people = refl;
      })
