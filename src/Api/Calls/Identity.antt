-- ===== src/Api/Calls/Identity.antt =====
-- Who the visitor is: `init`, `identify` and `reset`, and the copies of the ids in the store.
use iforevents_sdks.Prelude.{
  ℕ, ◌+◌, String, ◌≡◌, refl, ◌∙◌, ap, ◌⊎◌, inl, inr, Bool, true, false, none, some, arith,
}
use iforevents_sdks.Js.Value.{Value, Properties}
use iforevents_sdks.Errors.{Error}
use iforevents_sdks.Exec.{ok, thrown}
use iforevents_sdks.Exec.Keeps.{Keeps, Keeps-pure, Keeps-throw, Keeps-if, Keeps-attempt, Keeps-bind}
use iforevents_sdks.Types.{IdentifyEvent}
use iforevents_sdks.Storage.{IsLawful}
use iforevents_sdks.Ids.{Bytes, anonymous_id, message_id}
use iforevents_sdks.Api.{Env, State, user_key, identified_key, anonymous_key}
use iforevents_sdks.Api.Queue.{flush}
use iforevents_sdks.Api.Calls.{
  flag, is_true, draw, set_anonymous, set_user, settle, post_single, identify, identify_body, reset,
  forget,
}
use iforevents_sdks.Api.Calls.Visitor.{
  stored, Mirrored, Mirrored-SameVisitor, SameVisitor, SameVisitor-refl, envelope-SameVisitor,
  request-SameVisitor, report-SameVisitor, flush-SameVisitor,
}

module _ {S : Type 0} (env : Env S) (lawful : IsLawful env.storage) where
  settle-SameVisitor : (s : State S) (r : Value ⊎ Error) → Keeps (SameVisitor env s) (settle env r)
  unfolding settle
  settle-SameVisitor s (inl done) = Keeps-pure tt
  settle-SameVisitor s (inr e) =
      Keeps-bind _ _ (report-SameVisitor env lawful s e)
        λ _. Keeps-if env.config.throw_on_error _ _ (Keeps-throw e) (Keeps-pure tt)

  pub post_single-SameVisitor :
      (s : State S) (path : String) (body : Properties)
      → Keeps (SameVisitor env s) (post_single env path body)
  unfolding post_single
  post_single-SameVisitor s path body =
      Keeps-bind {A = Value ⊎ Error} _ _
        (Keeps-attempt _ (
          Keeps-bind _ _ (envelope-SameVisitor env s)
            λ extra. request-SameVisitor env s path _ false))
        (settle-SameVisitor s)

  pub set_anonymous-stored :
      (id : String) (s : State S) → stored env anonymous_key (set_anonymous env id s) ≡ some id
  unfolding set_anonymous
  set_anonymous-stored id s = lawful.get-set anonymous_key anonymous_key id s.store

  pub set_user-Mirrored :
      (id : String) (identified : Bool) (s : State S)
      → stored env anonymous_key s ≡ s.anon_id
      → Mirrored env (set_user env id identified s)
  unfolding set_user
  set_user-Mirrored id identified s h = record {
    user =
        lawful.get-set identified_key user_key (flag identified) _
        ∙ lawful.get-set user_key user_key id s.store;
    anonymous =
        lawful.get-set identified_key anonymous_key (flag identified) _
        ∙ lawful.get-set user_key anonymous_key id s.store
        ∙ h;
    identified =
        ap is_true (lawful.get-set identified_key identified_key (flag identified) _)
        ∙ is_true-flag identified;
  }
    where
      is_true-flag : (b : Bool) → is_true (some (flag b)) ≡ b
      is_true-flag true = refl
      is_true-flag false = refl

  forget-Mirrored : (bytes : Bytes) (s : State S) → Mirrored env (forget env bytes s)
  unfolding forget set_anonymous
  forget-Mirrored bytes s =
      set_user-Mirrored (anonymous_id bytes) false (set_anonymous env (anonymous_id bytes) s)
        (set_anonymous-stored (anonymous_id bytes) s)

  -- `identify` up to its request.
  named : IdentifyEvent → State S → State S
  named event s = set_user env event.custom_id true (record s { drawn = s.drawn + 1 })

  identify_run :
      (event : IdentifyEvent) (s : State S)
      → env.hooks.on_identify event ≡ none
      → identify env event s
        ≡ post_single env "/v1/events/identify"
            (identify_body event (message_id (env.random s.drawn)))
            (named event s)
  unfolding identify draw named
  identify_run event s hook = ground arith

  -- Whatever the network does, after `identify` the instance and the store name the given id, as
  -- identified, and the anonymous id is still the one from before.
  pub identify-Mirrored :
      (event : IdentifyEvent) (s : State S)
      → env.hooks.on_identify event ≡ none
      → Mirrored env s
      → let t = (identify env event s).1 in
        (t.user_id ≡ some event.custom_id)
        × (t.identified ≡ true)
        × (t.anon_id ≡ s.anon_id)
        × Mirrored env t
  unfolding named set_user
  identify-Mirrored event s hook m =
      let v =
        (post_single-SameVisitor (named event s) "/v1/events/identify"
            (identify_body event (message_id (env.random s.drawn)))).at
          (named event s) (SameVisitor-refl env (named event s)) in
      rw (identify_run event s hook) (
        v.user_id,
        v.identified,
        v.anon_id,
        Mirrored-SameVisitor env
            (set_user-Mirrored event.custom_id true (record s { drawn = s.drawn + 1 }) m.anonymous)
            v,
      )

  reset_run :
      (s : State S)
      → env.hooks.on_reset ≡ none
      → (flush env false s).0 ≡ ok tt
      → let t = (flush env false s).1 in
        reset env s ≡ (ok tt, forget env (env.random t.drawn) (record t { drawn = t.drawn + 1 }))
  unfolding reset draw
  reset_run s hook done = ground arith

  -- A reset whose hook does not throw and whose flush resolves leaves the visitor with a fresh id,
  -- not identified, in the instance and in the store.
  pub reset-Mirrored :
      (s : State S)
      → env.hooks.on_reset ≡ none
      → (flush env false s).0 ≡ ok tt
      → let t = (reset env s).1 in
        let id = some (anonymous_id (env.random s.drawn)) in
        (t.user_id ≡ id) × (t.anon_id ≡ id) × (t.identified ≡ false) × Mirrored env t
  unfolding forget set_user set_anonymous
  reset-Mirrored s hook done =
      let v = (flush-SameVisitor env lawful s false).at s (SameVisitor-refl env s) in
      let t = (flush env false s).1 in
      rw (reset_run s hook done) (
        ap (λ (n : ℕ). some (anonymous_id (env.random n))) v.drawn,
        ap (λ (n : ℕ). some (anonymous_id (env.random n))) v.drawn,
        refl,
        forget-Mirrored (env.random t.drawn) (record t { drawn = t.drawn + 1 }),
      )

  -- A reset whose flush throws, as it does under `throwOnError` when the api refuses the queue,
  -- throws the same and leaves the visitor as it was.
  pub reset-SameVisitor_of_thrown :
      (s : State S) (e : Error)
      → env.hooks.on_reset ≡ none
      → (flush env false s).0 ≡ thrown e
      → ((reset env s).0 ≡ thrown e) × SameVisitor env s (reset env s).1
  unfolding reset
  reset-SameVisitor_of_thrown s e hook bad =
      let v = (flush-SameVisitor env lawful s false).at s (SameVisitor-refl env s) in ground arith
