-- ===== src/Vendors/People/Amplitude.antt =====
-- js/packages/amplitude/src/node.ts: the calls of the client name the user, or the device.
use iforevents_sdks.Prelude.{
  sym, append-nil, String, ◌≡◌, refl, true, Option, none, some, List, [], ◌∷◌,
}
use iforevents_sdks.Js.Value.{get}
use iforevents_sdks.Types.{TrackEvent}
use iforevents_sdks.Vendors.{Call, Vendor, call, with_client, page_as_track}
use iforevents_sdks.Vendors.AmplitudeNode
use iforevents_sdks.Vendors.People.{
  PersonCall, identified, tracked, viewed, forgotten, Whom, anonymous, whom, perform, IsNamed,
  NamesSomebody, IsQuiet, Attributed, Attributes,
}
use iforevents_sdks.Vendors.People.Readers.{whom_in, whom_in-put, read_amplitude}

-- The device of a server.
abbrev pub fallback : Option String → Whom
fallback none = anonymous "server"
fallback (some id) = anonymous id

whom_in-target :
    (person device_id : Option String)
    → IsNamed person
    → whom_in "user_id" "device_id" (AmplitudeNode.target person device_id)
      ≡ whom (fallback device_id) person
unfolding whom_in AmplitudeNode.target get
whom_in-target none none n = refl
whom_in-target none (some d) n = refl
whom_in-target (some id) device_id n = rw (AmplitudeNode.target, n) refl

module _ (options : AmplitudeNode.Options) (vendor : Vendor) where
  track-Attributed :
      IsQuiet options.hooks
      → (event : TrackEvent) (person : Option String) (calls : List Call) → IsNamed person
      → Attributed read_amplitude
          (fallback options.device_id)
          (tracked event ∷ [])
          person
          calls
          (AmplitudeNode.track options vendor event
            (record { client = true; person = person; calls = calls })).1
  unfolding AmplitudeNode.track call with_client
  track-Attributed quiet event person calls n = rw (quiet.track event) (record {
    client = refl;
    last = refl;
    new = _;
    logged = refl;
    people =
        rw
          (
            whom_in-put "user_id" "device_id" "time" _ _ refl refl,
            whom_in-target person options.device_id n,
          )
          refl;
  })

  pub amplitude-Attributes :
      IsQuiet options.hooks
      → Attributes read_amplitude
          (fallback options.device_id)
          (AmplitudeNode.integration options vendor)
          (λ c. Unit)
  unfolding AmplitudeNode.identify AmplitudeNode.page AmplitudeNode.reset call with_client whom_in
      get
  amplitude-Attributes quiet = record { step = step }
    where
      step :
          (c : PersonCall) (person : Option String) (calls : List Call)
          → IsNamed person
          → NamesSomebody c
          → Unit {0}
          → Attributed read_amplitude
              (fallback options.device_id)
              (c ∷ [])
              person
              calls
              (perform
                (AmplitudeNode.integration options vendor)
                c
                (record { client = true; person = person; calls = calls })).1
      step (identified event) person calls n m h =
          rw (quiet.identify event)
            (record { client = refl; last = refl; new = _; logged = refl; people = refl })
      step (tracked event) person calls n m h = track-Attributed quiet event person calls n
      step (viewed event) person calls n m h = rw (quiet.page event) (
          let a = track-Attributed quiet (page_as_track event) person calls n in
          record {
            client = a.client;
            last = a.last;
            new = a.new;
            logged = a.logged;
            people = a.people;
          })
      step forgotten person calls n m h = rw quiet.reset (record {
        client = refl;
        last = refl;
        new = [];
        logged = sym (append-nil calls);
        people = refl;
      })
