-- ===== src/Vendors/People.antt =====
-- Whom the calls of a server-side adapter are about: what follows of a client's log from a history
-- of calls of the facade, and, in the children, that each adapter does so.
pub mod Readers
pub mod Amplitude
pub mod Mixpanel
pub mod PostHog
pub mod Segment
pub mod History
use iforevents_sdks.Prelude.{
  String, ◌≡◌, refl, ◌∙◌, ap, Bool, true, false, Option, none, some, List, [], ◌∷◌, ◌++◌, map, sym,
  arith, append_assoc, append-nil, All, ◌==◌,
}
use mathlib.Core.List.{map-append}
use iforevents_sdks.Exec.{Exec}
use iforevents_sdks.Types.{IdentifyEvent, TrackEvent, PageEvent, IntegrationHooks}
use iforevents_sdks.Errors.{Error}
use iforevents_sdks.Integration.{Integration}
use iforevents_sdks.Vendors.{Call, Adapter}

-- A call that the facade hands out.
pub data PersonCall : Type 0 where
  identified : IdentifyEvent → PersonCall
  tracked : TrackEvent → PersonCall
  viewed : PageEvent → PersonCall
  forgotten : PersonCall

-- Whom a call of the client names.
pub data Whom : Type 0 where
  user : String → Whom
  anonymous : String → Whom
  nobody : Whom

abbrev pub perform : Integration Adapter → PersonCall → Exec Adapter (Unit {0})
perform i (identified event) = i.identify event
perform i (tracked event) = i.track event
perform i (viewed event) = i.page event
perform i forgotten = i.reset

-- The adapter after a history; the facade catches what is thrown.
unfoldable pub runs : Integration Adapter → List PersonCall → Adapter → Adapter
runs i [] s = s
runs i (c ∷ cs) s = runs i cs (perform i c s).1

-- The person after a call, from the one before.
abbrev pub next_person : PersonCall → Option String → Option String
next_person (identified event) person = some event.custom_id
next_person (tracked event) person = person
next_person (viewed event) person = person
next_person forgotten person = none

abbrev pub last_person : List PersonCall → Option String → Option String
last_person [] person = person
last_person (c ∷ cs) person = last_person cs (next_person c person)

abbrev pub whom : Whom → Option String → Whom
whom fallback none = fallback
whom fallback (some id) = user id

-- Whom a history is about, call by call: the person identified last, up to the next `reset`, and
-- else the fallback.
abbrev pub people_of : Whom → PersonCall → Option String → List Whom
people_of fallback (identified event) person = user event.custom_id ∷ []
people_of fallback (tracked event) person = whom fallback person ∷ []
people_of fallback (viewed event) person = whom fallback person ∷ []
people_of fallback forgotten person = []

abbrev pub people : Whom → List PersonCall → Option String → List Whom
people fallback [] person = []
people fallback (c ∷ cs) person =
    people_of fallback c person ++ people fallback cs (next_person c person)

-- The ids are not empty, as the facade sees to.
abbrev pub IsNamed : Option String → Type 0
IsNamed none = Unit
IsNamed (some id) = (id == "") ≡ false

abbrev pub NamesSomebody : PersonCall → Type 0
NamesSomebody (identified event) = (event.custom_id == "") ≡ false
NamesSomebody c = Unit

-- No hook throws.
pub record IsQuiet (hooks : IntegrationHooks) : Type 0 where
  pub identify : (event : IdentifyEvent) → hooks.on_identify event ≡ none
  pub track : (event : TrackEvent) → hooks.on_track event ≡ none
  pub page : (event : PageEvent) → hooks.on_page event ≡ none
  pub reset : hooks.on_reset ≡ none

module _ (read : Call → Whom) (fallback : Whom) where
  -- From a person and a log to an adapter: the person is the last one, and the calls that are new
  -- name the people of the history.
  pub record Attributed (cs : List PersonCall) (person : Option String) (calls : List Call)
      (t : Adapter) : Type 0 where
    pub client : t.client ≡ true
    pub last : t.person ≡ last_person cs person
    pub new : List Call
    pub logged : t.calls ≡ calls ++ new
    pub people : map read new ≡ people fallback cs person

  -- What an adapter has to meet: each call by itself is about the right person, whatever the
  -- client answers.
  pub record Attributes (i : Integration Adapter) (Allowed : PersonCall → Type 0) : Type 0 where
    pub step :
        (c : PersonCall) (person : Option String) (calls : List Call)
        → IsNamed person
        → NamesSomebody c
        → Allowed c
        → Attributed
            (c ∷ [])
            person
            calls
            (perform i c (record { client = true; person = person; calls = calls })).1

  same_adapter :
      (t : Adapter) {person : Option String} {calls : List Call}
      → t.client ≡ true
      → t.person ≡ person
      → t.calls ≡ calls
      → t ≡ record { client = true; person = person; calls = calls }
  same_adapter t e f g = ground arith

  next_person-IsNamed :
      (c : PersonCall) (person : Option String)
      → NamesSomebody c
      → IsNamed person
      → IsNamed (next_person c person)
  next_person-IsNamed (identified event) person h k = h
  next_person-IsNamed (tracked event) person h k = k
  next_person-IsNamed (viewed event) person h k = k
  next_person-IsNamed forgotten person h k = tt

  module _ (i : Integration Adapter) (Allowed : PersonCall → Type 0)
      (a : Attributes i Allowed) where
    pub runs-Attributed :
        (cs : List PersonCall) (person : Option String) (calls : List Call)
        → IsNamed person
        → All NamesSomebody cs
        → All Allowed cs
        → Attributed cs person calls
            (runs i cs (record { client = true; person = person; calls = calls }))
    unfolding runs
    runs-Attributed [] person calls n ns as' = record {
      client = refl;
      last = refl;
      new = [];
      logged = sym (append-nil calls);
      people = refl;
    }
    runs-Attributed (c ∷ cs) person calls n (m, ms) (h, hs) =
        let t : Adapter =
          (perform i c (record { client = true; person = person; calls = calls })).1 in
        let first : Attributed (c ∷ []) person calls t = a.step c person calls n m h in
        let next : Adapter = record {
          client = true;
          person = next_person c person;
          calls = calls ++ first.new;
        } in
        let same : t ≡ next = same_adapter t first.client first.last first.logged in
        let rest : Attributed cs (next_person c person) (calls ++ first.new) (runs i cs next) =
          runs-Attributed cs (next_person c person) (calls ++ first.new)
            (next_person-IsNamed c person m n) ms hs in
        rw same (record {
          client = rest.client;
          last = rest.last;
          new = first.new ++ rest.new;
          logged = rest.logged ∙ append_assoc calls first.new rest.new;
          people =
              map-append read first.new rest.new ∙ rw (first.people, rest.people, append-nil) refl;
        })
