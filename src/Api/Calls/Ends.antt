-- ===== src/Api/Calls/Ends.antt =====
-- Which calls come to an end, where the network answers at all.
use iforevents_sdks.Prelude.{
  ◌⊎◌, inl, inr, String, true, false, Option, none, some, Bool, Bool-cases, if◌then◌else◌,
}
use iforevents_sdks.Js.Number.{of_ℕ, number_le}
use iforevents_sdks.Js.Value.{Properties}
use iforevents_sdks.Errors.{Error}
use iforevents_sdks.Exec.{Outcome, ok, thrown, out_of_fuel, Exec, then_run, caught, Ends}
use iforevents_sdks.Types.{IdentifyEvent, TrackEvent, PageEvent}
use iforevents_sdks.Api.{Env, State, run_hook}
use iforevents_sdks.Api.Request.{envelope}
use iforevents_sdks.Api.Request.Ends.{Settles, request-Ends}
use iforevents_sdks.Api.Queue.{flush}
use iforevents_sdks.Api.Queue.Drains.{flush-Accounts}
use iforevents_sdks.Api.Calls.{
  draw, init, settle, post_single, identify, track, page, page_track, reset, shutdown,
}

module _ {S : Type 0} (env : Env S) where
  then_run-Ends :
      {A B : Type 0} (o : Outcome A) (f : A → Exec (State S) B) (s : State S)
      → Ends o
      → ((a : A) → Ends (f a s).0)
      → Ends (then_run o f s).0
  then_run-Ends (ok a) f s h k = k a
  then_run-Ends (thrown e) f s h k = tt
  then_run-Ends out_of_fuel f s h k = h

  caught-Ends : {A : Type 0} (o : Outcome A) → Ends o → Ends (caught o)
  caught-Ends (ok a) h = tt
  caught-Ends (thrown e) h = tt
  caught-Ends out_of_fuel h = h

  if-Ends :
      {A : Type 0} (b : Bool) (m n : Exec (State S) A) (s : State S)
      → Ends (m s).0
      → Ends (n s).0
      → Ends ((if b then m else n) s).0
  if-Ends true m n s h k = h
  if-Ends false m n s h k = k

  hook-Ends : (h : Option Error) (s : State S) → Ends (run_hook h s).0
  hook-Ends none s = tt
  hook-Ends (some e) s = tt

  settle-Ends : {A : Type 0} (r : A ⊎ Error) (s : State S) → Ends (settle env r s).0
  unfolding settle
  settle-Ends (inl done) s = tt
  settle-Ends (inr e) s = elim (Bool-cases env.config.throw_on_error) [
    | inl y ↦ rw y tt
    | inr n ↦ rw n tt
  ]

  post_single-Ends :
      (settles : Settles env) (path : String) (body : Properties) (s : State S)
      → Ends (post_single env path body s).0
  unfolding post_single envelope
  post_single-Ends settles path body s =
      then_run-Ends _ _ _ (caught-Ends _ (request-Ends env settles path _ false _).0)
        (λ r. settle-Ends r _)

  flush-Ends : (settles : Settles env) (s : State S) → Ends (flush env false s).0
  flush-Ends settles s = (flush-Accounts env settles false s).ends

  init-Ends : (s : State S) → Ends (init env s).0
  unfolding init
  init-Ends s = then_run-Ends _ _ _ (hook-Ends env.hooks.on_init s) (λ u. tt)

  identify-Ends :
      (settles : Settles env) (event : IdentifyEvent) (s : State S) → Ends (identify env event s).0
  unfolding identify draw
  identify-Ends settles event s =
      then_run-Ends _ _ _ (hook-Ends (env.hooks.on_identify event) s)
        (λ u. post_single-Ends settles _ _ _)

  track-Ends :
      (settles : Settles env) (event : TrackEvent) (s : State S) → Ends (track env event s).0
  unfolding track draw
  track-Ends settles event s = then_run-Ends _ _ _ (hook-Ends (env.hooks.on_track event) s) (λ u.
      if-Ends (number_le env.config.batch_size (of_ℕ 1)) _ _ _ (post_single-Ends settles _ _ _)
        (if-Ends (number_le env.config.batch_size _) _ _ _ tt tt))

  page-Ends : (settles : Settles env) (event : PageEvent) (s : State S) → Ends (page env event s).0
  unfolding page
  page-Ends settles event s =
      then_run-Ends _ _ _ (hook-Ends (env.hooks.on_page event) s)
        (λ u. track-Ends settles (page_track event) _)

  reset-Ends : (settles : Settles env) (s : State S) → Ends (reset env s).0
  unfolding reset draw
  reset-Ends settles s =
      then_run-Ends _ _ _ (hook-Ends env.hooks.on_reset s)
        (λ u. then_run-Ends _ _ _ (flush-Ends settles _) (λ v. tt))

  shutdown-Ends : (settles : Settles env) (s : State S) → Ends (shutdown env s).0
  unfolding shutdown
  shutdown-Ends settles s = then_run-Ends _ _ _ (flush-Ends settles s) (λ v. tt)

  -- Where `maxRetries` is a natural number, and every fetch and the body of every response settles,
  -- and whatever the network answers and the hooks throw, every call of the api integration comes
  -- to an end, in each state.
  pub calls_end :
      (settles : Settles env) (s : State S)
      → Ends (init env s).0
        × ((event : IdentifyEvent) → Ends (identify env event s).0)
        × ((event : TrackEvent) → Ends (track env event s).0)
        × ((event : PageEvent) → Ends (page env event s).0)
        × Ends (reset env s).0
        × Ends (flush env false s).0
        × Ends (shutdown env s).0
  calls_end settles s = (
    init-Ends s,
    λ e. identify-Ends settles e s,
    λ e. track-Ends settles e s,
    λ e. page-Ends settles e s,
    reset-Ends settles s,
    flush-Ends settles s,
    shutdown-Ends settles s,
  )
