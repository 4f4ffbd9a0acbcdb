-- ===== src/Api/Calls/Visitor.antt =====
-- The visitor in the instance and in the store, and what leaves both alone.
use iforevents_sdks.Prelude.{
  ℕ, zero, suc, length, String, ◌≡◌, refl, sym, ◌∙◌, ap, Bool, true, false, List, Option,
  if◌then◌else◌, arith,
}
use iforevents_sdks.Errors.{Error, ApiError, api}
use iforevents_sdks.Exec.Keeps.{
  Keeps, Keeps-pure, Keeps-throw, Keeps-gets, Keeps-if, Keeps-attempt, Keeps-modify, Keeps-bind,
  Keeps-after,
}
use iforevents_sdks.Js.Value.{Value}
use iforevents_sdks.Api.Request.{envelope, request}
use iforevents_sdks.Api.Request.Ends.{request-Untouched}
use iforevents_sdks.Exec.{modify}
use iforevents_sdks.Storage.{IsLawful}
use iforevents_sdks.Api.{Env, State, user_key, identified_key, anonymous_key, queue_key}
use iforevents_sdks.Api.Queue.{
  is_empty, as_api_error, persist, put_back, report, drain_failed, send_batch, drain, clear_timer,
  take_batch, schedule, flush,
}
use iforevents_sdks.Api.Calls.{is_true}

module _ {S : Type 0} (env : Env S) where
  abbrev pub stored : String → State S → Option String
  stored key s = env.storage.get key s.store

  -- The store holds the ids and the flag of the instance.
  pub record Mirrored (s : State S) : Type 0 where
    pub user : stored user_key s ≡ s.user_id
    pub anonymous : stored anonymous_key s ≡ s.anon_id
    pub identified : is_true (stored identified_key s) ≡ s.identified

  -- The visitor of `t` is that of `s`, in the instance and in the store, and no identifier was drawn.
  pub record SameVisitor (s t : State S) : Type 0 where
    pub user_id : t.user_id ≡ s.user_id
    pub anon_id : t.anon_id ≡ s.anon_id
    pub identified : t.identified ≡ s.identified
    pub stored_user : stored user_key t ≡ stored user_key s
    pub stored_anonymous : stored anonymous_key t ≡ stored anonymous_key s
    pub stored_identified : is_true (stored identified_key t) ≡ is_true (stored identified_key s)
    pub drawn : t.drawn ≡ s.drawn

  pub SameVisitor-refl : (s : State S) → SameVisitor s s
  SameVisitor-refl s = ground arith

  pub Mirrored-SameVisitor : {s t : State S} → Mirrored s → SameVisitor s t → Mirrored t
  Mirrored-SameVisitor m v = record {
    user = v.stored_user ∙ m.user ∙ sym v.user_id;
    anonymous = v.stored_anonymous ∙ m.anonymous ∙ sym v.anon_id;
    identified = v.stored_identified ∙ m.identified ∙ sym v.identified;
  }

  -- The visitor of `s`, through a change of the fields that are not about it.
  pub SameVisitor-of_fields :
      {s t u : State S}
      → SameVisitor s t
      → u.user_id ≡ t.user_id
      → u.anon_id ≡ t.anon_id
      → u.identified ≡ t.identified
      → u.store ≡ t.store
      → u.drawn ≡ t.drawn
      → SameVisitor s u
  SameVisitor-of_fields v a b c d n = record {
    user_id = a ∙ v.user_id;
    anon_id = b ∙ v.anon_id;
    identified = c ∙ v.identified;
    stored_user = ap (env.storage.get user_key) d ∙ v.stored_user;
    stored_anonymous = ap (env.storage.get anonymous_key) d ∙ v.stored_anonymous;
    stored_identified =
        ap (λ (x : S). is_true (env.storage.get identified_key x)) d ∙ v.stored_identified;
    drawn = n ∙ v.drawn;
  }

  pub request-SameVisitor :
      (s : State S) (path : String) (body : Value) (keepalive : Bool)
      → Keeps (SameVisitor s) (request env path body keepalive)
  request-SameVisitor s path body keepalive = record {
    at = λ t v.
        let u = request-Untouched env path body keepalive t in
        SameVisitor-of_fields v u.user_id u.anon_id u.identified u.store u.drawn;
  }

  pub envelope-SameVisitor : (s : State S) → Keeps (SameVisitor s) (envelope env)
  unfolding envelope
  envelope-SameVisitor s = record { at = λ t v. SameVisitor-of_fields v refl refl refl refl refl }

  module _ (lawful : IsLawful env.storage) where
    SameVisitor-set_queue :
        (s t : State S) (text : String)
        → SameVisitor s t
        → SameVisitor s (record t { store = env.storage.set queue_key text t.store })
    SameVisitor-set_queue s t text v = record {
      user_id = v.user_id;
      anon_id = v.anon_id;
      identified = v.identified;
      stored_user = lawful.get-set queue_key user_key text t.store ∙ v.stored_user;
      stored_anonymous = lawful.get-set queue_key anonymous_key text t.store ∙ v.stored_anonymous;
      stored_identified =
          ap is_true (lawful.get-set queue_key identified_key text t.store) ∙ v.stored_identified;
      drawn = v.drawn;
    }

    pub SameVisitor-remove_queue :
        (s t : State S)
        → SameVisitor s t
        → SameVisitor s (record t { store = env.storage.remove queue_key t.store })
    SameVisitor-remove_queue s t v = record {
      user_id = v.user_id;
      anon_id = v.anon_id;
      identified = v.identified;
      stored_user = lawful.get-remove queue_key user_key t.store ∙ v.stored_user;
      stored_anonymous = lawful.get-remove queue_key anonymous_key t.store ∙ v.stored_anonymous;
      stored_identified =
          ap is_true (lawful.get-remove queue_key identified_key t.store) ∙ v.stored_identified;
      drawn = v.drawn;
    }

    written-SameVisitor :
        (on empty : Bool) (s t : State S) (text : String)
        → SameVisitor s t
        → SameVisitor s (
            if on
            then record t {
              store =
                  if empty
                  then env.storage.remove queue_key t.store
                  else env.storage.set queue_key text t.store;
            }
            else t)
    written-SameVisitor true true s t text v = SameVisitor-remove_queue s t v
    written-SameVisitor true false s t text v = SameVisitor-set_queue s t text v
    written-SameVisitor false empty s t text v = v

    pub persist-SameVisitor : (s t : State S) → SameVisitor s t → SameVisitor s (persist env t)
    unfolding persist
    persist-SameVisitor s t v =
        written-SameVisitor env.config.persist_queue (is_empty t.queue) s t _ v

    pub modify-SameVisitor :
        (s : State S) (f : State S → State S)
        → ((t : State S) → (f t).user_id ≡ t.user_id)
        → ((t : State S) → (f t).anon_id ≡ t.anon_id)
        → ((t : State S) → (f t).identified ≡ t.identified)
        → ((t : State S) → (f t).store ≡ t.store)
        → ((t : State S) → (f t).drawn ≡ t.drawn)
        → Keeps (SameVisitor s) (modify f)
    modify-SameVisitor s f a b c d n =
        Keeps-modify f (λ t v. SameVisitor-of_fields v (a t) (b t) (c t) (d t) (n t))

    take_batch-SameVisitor : (s : State S) → Keeps (SameVisitor s) (modify take_batch)
    unfolding take_batch
    take_batch-SameVisitor s =
        modify-SameVisitor s take_batch (λ t. refl) (λ t. refl) (λ t. refl) (λ t. refl) (λ t. refl)

    clear_timer-SameVisitor : (s : State S) → Keeps (SameVisitor s) (modify clear_timer)
    unfolding clear_timer
    clear_timer-SameVisitor s =
        modify-SameVisitor s clear_timer (λ t. refl) (λ t. refl) (λ t. refl) (λ t. refl) (λ t. refl)

    pub schedule-SameVisitor : (s : State S) → Keeps (SameVisitor s) (modify schedule)
    unfolding schedule
    schedule-SameVisitor s =
        modify-SameVisitor s schedule (λ t. ground arith) (λ t. ground arith) (λ t. ground arith)
          (λ t. ground arith) (λ t. ground arith)

    pub report-SameVisitor : (s : State S) (e : Error) → Keeps (SameVisitor s) (modify (report e))
    unfolding report
    report-SameVisitor s e =
        modify-SameVisitor s (report e) (λ t. ground arith) (λ t. ground arith) (λ t. ground arith)
          (λ t. ground arith) (λ t. ground arith)

    put_back-SameVisitor :
        (s : State S) (events : List Value) (e : ApiError)
        → Keeps (SameVisitor s) (modify (put_back env.config events e))
    unfolding put_back
    put_back-SameVisitor s events e =
        modify-SameVisitor s (put_back env.config events e) (λ t. ground arith) (λ t. ground arith)
          (λ t. ground arith) (λ t. ground arith) (λ t. ground arith)

    drain_failed-SameVisitor :
        (s : State S) (events : List Value) (e : ApiError)
        → Keeps (SameVisitor s) (drain_failed env events e)
    unfolding drain_failed
    drain_failed-SameVisitor s events e = Keeps-bind _ _ (put_back-SameVisitor s events e) λ _.
        Keeps-bind _ _ (Keeps-modify _ (persist-SameVisitor s)) λ _.
          Keeps-bind _ _ (report-SameVisitor s (api e))
            λ _. Keeps-if env.config.throw_on_error _ _ (Keeps-throw (api e)) (Keeps-pure tt)

    send_batch-SameVisitor :
        (s : State S) (events : List Value) (keepalive : Bool)
        → Keeps (SameVisitor s) (send_batch env events keepalive)
    unfolding send_batch
    send_batch-SameVisitor s events keepalive = Keeps-bind _ _ (envelope-SameVisitor s) λ extra.
        Keeps-bind _ _ (request-SameVisitor s _ _ keepalive)
          λ _. Keeps-modify _ (persist-SameVisitor s)

    drain-SameVisitor :
        (s : State S) (fuel : ℕ) (keepalive : Bool)
        → Keeps (SameVisitor s) (drain env fuel keepalive)
    unfolding drain
    drain-SameVisitor s zero keepalive = record { at = λ t v. v }
    drain-SameVisitor s (suc fuel) keepalive =
        Keeps-bind {A = List Value} _ _ (Keeps-gets _) λ queue.
          Keeps-if (is_empty queue) _ _ (Keeps-pure tt) (
            Keeps-bind {A = List Value} _ _ (Keeps-gets _) λ events.
              Keeps-bind _ _ (take_batch-SameVisitor s) λ _.
                Keeps-bind _ _ (Keeps-attempt _ (send_batch-SameVisitor s events keepalive))
                  λ result.
                    Keeps-after _ _ result (λ _. drain-SameVisitor s fuel keepalive)
                      (λ e. drain_failed-SameVisitor s events (as_api_error e)))

    -- A flush leaves the visitor alone.
    pub flush-SameVisitor :
        (s : State S) (keepalive : Bool) → Keeps (SameVisitor s) (flush env keepalive)
    unfolding flush
    flush-SameVisitor s keepalive = Keeps-bind _ _ (clear_timer-SameVisitor s) λ _.
        Keeps-bind {A = List Value} _ _ (Keeps-gets λ t. t.queue)
          λ queue. drain-SameVisitor s (suc (length queue)) keepalive
