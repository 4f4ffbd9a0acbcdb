-- ===== src/Browser/Turns.antt =====
-- js/packages/browser/src/browser.ts: calls of a client that interleave, at each `await` of
-- `track`, `page` and `identify`; those of js/packages/react-native/src/index.ts await the same.
-- The continuations of resolved promises run in the order in which they were queued. `ready` may
-- be pending or fulfilled; where it is rejected every call is, as in the parent.
pub mod Pending
pub mod Invariant
pub mod Settling
pub mod Steps
pub mod Order
use iforevents_sdks.Prelude.{
  ℕ, zero, suc, ◌≤◌, String, Bool, true, false, ◌||◌, not, Option, List, [], ◌∷◌, ◌++◌, map, length,
  eqb, if◌then◌else◌,
}
use iforevents_sdks.Js.Value.{Properties}
use iforevents_sdks.Facade.{PageOptions}
use iforevents_sdks.Browser.{PageArgument}

-- `track` and `page`, which wait for `identifying`, with their arguments.
pub data Event : Type 0 where
  tracks : String → Option Properties → Event
  pages : PageArgument → Option Properties → PageOptions → Event

-- The arguments of `identify`.
pub record Person : Type 0 where
  pub custom_id : String
  pub traits : Option Properties

pub data ClientCall : Type 0 where
  identifies : Person → ClientCall
  sends : Event → ClientCall

-- The continuation of a call after `await ready`, and that of an event after `await identifying`
-- where this was the promise of the run with the number given: 0 is `Promise.resolve()`.
pub data Job : Type 0 where
  begins : ClientCall → Job
  hands : ℕ → Event → Job

-- Whether `ready` is fulfilled and what waits for it; the queue of continuations; the runs of
-- `iforevents.identify` begun, the last of which is that of `identifying`, and the numbers of those
-- that have ended; the events that wait for a run; and those that the facade was given.
pub record Turns : Type 0 where
  pub ready : Bool
  pub on_ready : List ClientCall
  pub jobs : List Job
  pub begun : List Person
  pub ended : List ℕ
  pub waiting : List (ℕ × Event)
  pub handed : List (ℕ × Event)

-- The client as `createBrowserIforevents` returns it.
abbrev pub new_turns : Turns
new_turns = record {
  ready = false;
  on_ready = [];
  jobs = [];
  begun = [];
  ended = [];
  waiting = [];
  handed = [];
}

-- The number of the run whose promise is `identifying`.
abbrev pub identifying : Turns → ℕ
identifying t = length t.begun

abbrev pub is_one_of : ℕ → List ℕ → Bool
is_one_of n [] = false
is_one_of n (m ∷ ms) = eqb m n || is_one_of n ms

-- Whether the promise of a run is settled.
abbrev pub has_ended : ℕ → Turns → Bool
has_ended n t = eqb n 0 || is_one_of n t.ended

-- A call, up to its first `await`.
unfoldable pub make_call : ClientCall → Turns → Turns
make_call c t =
    if t.ready
    then record t { jobs = t.jobs ++ begins c ∷ [] }
    else record t { on_ready = t.on_ready ++ c ∷ [] }

-- `ready` is fulfilled.
unfoldable pub becomes_ready : Turns → Turns
becomes_ready t = record t { ready = true; on_ready = []; jobs = t.jobs ++ map begins t.on_ready }

-- `await identifying`, then `iforevents.track` or `iforevents.page`.
unfoldable pub await_run : Event → Turns → Turns
await_run e t =
    if has_ended (identifying t) t
    then record t { jobs = t.jobs ++ hands (identifying t) e ∷ [] }
    else record t { waiting = t.waiting ++ (identifying t, e) ∷ [] }

-- The continuation of a call, and that of an event.
unfoldable pub run_job : Job → Turns → Turns
unfolding await_run
run_job (begins (identifies p)) t = record t { begun = t.begun ++ p ∷ [] }
run_job (begins (sends e)) t = await_run e t
run_job (hands n e) t = record t { handed = t.handed ++ (n, e) ∷ [] }

-- The next continuation, if there is one.
abbrev pub next_job : List Job → Turns → Turns
next_job [] t = t
next_job (j ∷ js) t = run_job j (record t { jobs = js })

unfoldable pub turn : Turns → Turns
unfolding run_job
turn t = next_job t.jobs t

-- What waits for a run, and the rest.
abbrev pub woken : ℕ → List (ℕ × Event) → List Job
woken n [] = []
woken n ((m, e) ∷ es) = let rest = woken n es in if eqb m n then hands m e ∷ rest else rest

abbrev pub asleep : ℕ → List (ℕ × Event) → List (ℕ × Event)
asleep n [] = []
asleep n ((m, e) ∷ es) = let rest = asleep n es in if eqb m n then rest else (m, e) ∷ rest

-- The promise `run.catch(() => undefined)` of a run is fulfilled, whether it succeeded or not.
unfoldable pub run_ends : ℕ → Turns → Turns
run_ends n t = record t {
  ended = n ∷ t.ended;
  jobs = t.jobs ++ woken n t.waiting;
  waiting = asleep n t.waiting;
}

-- What happens to a client whose calls so far are listed.
pub data Reach : Turns → List ClientCall → Type 0 where
  start : Reach new_turns []
  calls :
      {t : Turns} {cs : List ClientCall}
      → Reach t cs
      → (c : ClientCall) → Reach (make_call c t) (cs ++ c ∷ [])
  readies : {t : Turns} {cs : List ClientCall} → Reach t cs → Reach (becomes_ready t) cs
  turns : {t : Turns} {cs : List ClientCall} → Reach t cs → Reach (turn t) cs
  ends :
      {t : Turns} {cs : List ClientCall}
      → Reach t cs
      → (n : ℕ) → n ≤ identifying t
      → Reach (run_ends n t) cs

-- Every continuation of the queue is run, those that are queued meanwhile too.
unfoldable pub checkpoint : ℕ → Turns → Turns
checkpoint zero t = t
checkpoint (suc fuel) t = checkpoint fuel (turn t)
