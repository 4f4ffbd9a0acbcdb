-- ===== src/Api/Calls/Persistence.antt =====
-- The copy of the queue in the store, and the restart from it.
use iforevents_sdks.Prelude.{
  ℕ, zero, suc, ◌-◌, ◌≤◌, String, ◌≡◌, refl, sym, ◌∙◌, ap, ◌≢◌, inl, inr, Bool, true, List, [], ◌∷◌,
  append-nil, Option, none, some, length, Bool-cases, arith, eq_iff, if◌then◌else◌,
}
use iforevents_sdks.Js.Value.{Value, array, items}
use iforevents_sdks.Errors.{ApiError}
use iforevents_sdks.Exec.{Outcome, ok, thrown, out_of_fuel, then_run, modify}
use iforevents_sdks.Storage.{IsLawful}
use iforevents_sdks.Ids.{Bytes}
use iforevents_sdks.Api.{Env, State, new_state, user_key, identified_key, anonymous_key, queue_key}
use iforevents_sdks.Api.Request.{envelope}
use iforevents_sdks.Api.Queue.{
  is_empty, schedule, clear_timer, take_batch, batch, put_back, persist, drain_failed, send_batch,
  drain, flush,
}
use iforevents_sdks.Api.Request.Ends.{Settles}
use iforevents_sdks.Api.Queue.Delivery.{elements-items, send_batch_sends}
use iforevents_sdks.Api.Queue.Drains.{drain_empty, drain_sent, drain_refused}
use iforevents_sdks.Api.Calls.{
  last_events, set_anonymous, set_user, restored, restore_identity, restored_queue, restore_queue,
  init,
}
use iforevents_sdks.Api.Calls.Restore.{init_run}
use iforevents_sdks.Api.Calls.Visitor.{stored}

module _ {S : Type 0} (env : Env S) where
  abbrev pub queue_text : List Value → Option String
  queue_text [] = none
  queue_text (v ∷ q) = some (env.runtime.stringify (array (items (v ∷ q))))

  -- The store holds the queue, and nothing for the empty one.
  abbrev pub IsPersisted : State S → Type 0
  IsPersisted s = stored env queue_key s ≡ queue_text s.queue

module _ {S : Type 0} (env : Env S) (lawful : IsLawful env.storage)
    (on : env.config.persist_queue ≡ true) where
  written_text :
      (q : List Value) (x : S)
      → env.storage.get queue_key (
          if is_empty q
          then env.storage.remove queue_key x
          else env.storage.set queue_key (env.runtime.stringify (array (items q))) x)
        ≡ queue_text env q
  written_text [] x = lawful.get-remove queue_key queue_key x
  written_text (v ∷ q) x = lawful.get-set queue_key queue_key _ x

  pub persist_lem :
      (s : State S)
      → (stored env queue_key (persist env s) ≡ queue_text env s.queue)
        × ((persist env s).queue ≡ s.queue)
  unfolding persist
  persist_lem s = ground (arith, written_text s.queue s.store)

  pub persist-IsPersisted : (s : State S) → IsPersisted env (persist env s)
  persist-IsPersisted s = (persist_lem s).0 ∙ ap (queue_text env) (sym (persist_lem s).1)

  saved :
      (o : Outcome Value) (s : State S)
      → (then_run o (λ _. modify (persist env)) s).0 ≡ ok tt
      → IsPersisted env (then_run o (λ _. modify (persist env)) s).1
  saved (ok v) s e = persist-IsPersisted s
  saved (thrown x) s e = cc
  saved out_of_fuel s e = cc

  send_batch-IsPersisted :
      (events : List Value) (keepalive : Bool) (s : State S)
      → (send_batch env events keepalive s).0 ≡ ok tt
      → IsPersisted env (send_batch env events keepalive s).1
  unfolding send_batch envelope
  send_batch-IsPersisted events keepalive s e = saved _ _ e

  pub drain_failed-IsPersisted :
      (events : List Value) (e : ApiError) (s : State S)
      → IsPersisted env (drain_failed env events e s).1
  unfolding drain_failed
  drain_failed-IsPersisted events e s =
      ground (arith, persist-IsPersisted (put_back env.config events e s))

  drain-IsPersisted :
      (settles : Settles env) (fuel : ℕ) (keepalive : Bool) (s : State S)
      → IsPersisted env s
      → IsPersisted env (drain env fuel keepalive s).1
  drain-IsPersisted settles zero keepalive s h = unfold drain in h
  drain-IsPersisted settles (suc fuel) keepalive s h = elim (Bool-cases (is_empty s.queue)) [
    | inl done ↦ rw (drain_empty env fuel keepalive s done) h
    | inr more ↦ elim (send_batch_sends env settles (batch s) keepalive (take_batch s)) [
      | inl (r, _, _) ↦
          rw (drain_sent env fuel keepalive s more r)
            (drain-IsPersisted settles fuel keepalive _ (send_batch-IsPersisted _ keepalive _ r))
      | inr (e, n, r, _, _, _) ↦
          rw (drain_refused env fuel keepalive s e more r) (drain_failed-IsPersisted _ e _)
    ]
  ]

  -- With `persistQueue`, where every fetch and the body of every response settles, if the store
  -- holds the queue before a flush it does after it, whatever the api accepted or refused.
  pub flush-IsPersisted :
      (settles : Settles env) (keepalive : Bool) (s : State S)
      → IsPersisted env s
      → IsPersisted env (flush env keepalive s).1
  unfolding flush clear_timer
  flush-IsPersisted settles keepalive s h =
      drain-IsPersisted settles (suc (length s.queue)) keepalive _ h

  restored_kept :
      (user anon flag_text : Option String) (bytes : Bytes) (s : State S)
      → (stored env queue_key (restored env user anon flag_text bytes s) ≡ stored env queue_key s)
        × ((restored env user anon flag_text bytes s).queue ≡ s.queue)
  unfolding restored set_anonymous set_user
  restored_kept (some user) anon flag_text bytes s =
      (lawful.get-set anonymous_key queue_key _ s.store, refl)
  restored_kept none anon flag_text bytes s = (
    lawful.get-set identified_key queue_key _ _
        ∙ lawful.get-set user_key queue_key _ _
        ∙ lawful.get-set anonymous_key queue_key _ s.store,
    refl,
  )

  restore_identity_kept :
      (s : State S)
      → (stored env queue_key (restore_identity env s) ≡ stored env queue_key s)
        × ((restore_identity env s).queue ≡ s.queue)
  unfolding restore_identity
  restore_identity_kept s = restored_kept _ _ _ _ _

  -- The text that is kept for a queue is not empty, and parses to the same array.
  pub record Codec (q : List Value) : Type 0 where
    pub not_empty : env.runtime.stringify (array (items q)) ≢ ""
    pub parses :
        env.runtime.parse (env.runtime.stringify (array (items q))) ≡ some (array (items q))

  last_events_all : (max : ℕ) (q : List Value) → length q ≤ max → last_events max q ≡ q
  last_events_all max q h = let fits : length q - max ≡ 0 = omega arith in ground arith

  last_events_none : (max : ℕ) → last_events max [] ≡ []
  last_events_none max = ground arith

  restored_queue_lem :
      (v : Value) (q : List Value) (s : State S)
      → s.queue ≡ []
      → (restored_queue env (some (array (items (v ∷ q)))) s).queue
        ≡ last_events env.config.max_queue_size (v ∷ q)
  unfolding restored_queue schedule
  restored_queue_lem v q s empty = rw (elements-items q, empty, append-nil) (ground arith)

  restore_queue_lem :
      (q : List Value) (s : State S)
      → Codec q
      → s.queue ≡ []
      → stored env queue_key s ≡ queue_text env q
      → (restore_queue env s).queue ≡ last_events env.config.max_queue_size q
  unfolding restore_queue
  restore_queue_lem [] s codec empty text =
      ground (arith, last_events_none env.config.max_queue_size)
  restore_queue_lem (v ∷ q) s codec empty text = ground (
    arith,
    codec.parses,
    restored_queue_lem v q s empty,
    eq_iff (env.runtime.stringify (array (items (v ∷ q)))) "",
  )

  -- A new instance over a store that keeps the text of a queue starts with the last events of it.
  pub init_restores :
      (q : List Value) (s : State S)
      → env.hooks.on_init ≡ none
      → stored env queue_key s ≡ queue_text env q
      → Codec q
      → (init env (new_state s.store)).1.queue ≡ last_events env.config.max_queue_size q
  unfolding new_state
  init_restores q s hook kept codec =
      let (text, empty) = restore_identity_kept (new_state s.store) in
      rw (init_run env lawful (new_state s.store) hook)
        (restore_queue_lem q (restore_identity env (new_state s.store)) codec empty (text ∙ kept))

  -- Unsent events survive a restart: a new instance over the store of one whose queue is kept
  -- there, and fits the cap, starts with that queue, if the JSON codec reads back what it wrote.
  pub init_restores_queue :
      (s : State S)
      → env.hooks.on_init ≡ none
      → IsPersisted env s
      → Codec s.queue
      → length s.queue ≤ env.config.max_queue_size
      → (init env (new_state s.store)).1.queue ≡ s.queue
  init_restores_queue s hook kept codec fits =
      init_restores s.queue s hook kept codec
      ∙ last_events_all env.config.max_queue_size s.queue fits
