-- ===== src/Api/Queue/Posts.antt =====
-- What a flush sends: posts of batches, each with the `keepalive` that it was called with.
use iforevents_sdks.Prelude.{
  ℕ, zero, suc, ◌+◌, ◌≡◌, refl, ◌∙◌, ap, sym, Bool, Option, none, some, List, [], ◌∷◌, ◌++◌,
  append_assoc, append-nil, All, All-append, arith, leb, not, ◌||◌, length,
}
use Prim.Native.String.{◌++◌ as str_append}
use iforevents_sdks.Js.Value.{Value}
use iforevents_sdks.Errors.{ApiError, api, retryable}
use iforevents_sdks.Exec.{Exec, modify, unsettled}
use iforevents_sdks.Exec.Keeps.{
  Keeps, Keeps-pure, Keeps-throw, Keeps-gets, Keeps-if, Keeps-attempt, Keeps-modify, Keeps-bind,
  Keeps-after,
}
use iforevents_sdks.Js.Number.{Number}
use iforevents_sdks.Api.{Env, State, Post, Answer}
use iforevents_sdks.Api.Request.{
  Verdict, accepted, refused, unanswered, judge, note_outcome, envelope, fetch, sleep, delay,
  attempts, request,
}
use iforevents_sdks.Api.Queue.{
  as_api_error, persist, take_batch, clear_timer, is_empty, drain_failed, send_batch, drain, flush,
}
use iforevents_sdks.Api.Queue.Drains.{drain_failed_lem}

-- The two ways on from an answer.
Keeps-judged :
    {S A : Type 0} {P : S → Type 0} (f : Value → Exec S A) (g : ApiError → Exec S A) (v : Verdict)
    → ((json : Value) → Keeps P (f json))
    → ((e : ApiError) → Keeps P (g e))
    → Keeps P (elim v [ accepted json ↦ f json | refused e ↦ g e | unanswered ↦ unsettled ])
Keeps-judged f g (accepted json) kf kg = kf json
Keeps-judged f g (refused e) kf kg = kg e
Keeps-judged f g unanswered kf kg = record { at = λ s h. h }

module _ {S : Type 0} (env : Env S) (keepalive : Bool) where
  -- A post of a batch.
  pub record IsBatch (p : Post) : Type 0 where
    pub url : p.url ≡ str_append env.config.base_url "/v1/events/batch"
    pub kept_alive : p.keepalive ≡ keepalive

  -- Only posts of batches have been sent since the log was as given.
  pub record OnlyBatches (before : List Post) (t : State S) : Type 0 where
    pub new : List Post
    pub log : t.sent ≡ before ++ new
    pub batches : All IsBatch new

  module _ (before : List Post) where
    OnlyBatches-of_sent :
        (s t : State S) → t.sent ≡ s.sent → OnlyBatches before s → OnlyBatches before t
    OnlyBatches-of_sent s t e h = record { new = h.new; log = e ∙ h.log; batches = h.batches }

    fetch-OnlyBatches : (p : Post) → IsBatch p → Keeps (OnlyBatches before) (fetch env p)
    unfolding fetch
    fetch-OnlyBatches p b = record {
      at = λ s h. record {
        new = h.new ++ p ∷ [];
        log = ap (λ l. l ++ p ∷ []) h.log ∙ append_assoc before h.new (p ∷ []);
        batches = All-append IsBatch h.new (p ∷ []) h.batches (b, tt);
      };
    }

    note_outcome-OnlyBatches :
        (o : Option ApiError) → Keeps (OnlyBatches before) (modify (note_outcome o))
    unfolding note_outcome
    note_outcome-OnlyBatches o =
        Keeps-modify _ λ s. OnlyBatches-of_sent s (note_outcome o s) (same o s)
      where
        same : (o : Option ApiError) (s : State S) → (note_outcome o s).sent ≡ s.sent
        same none s = refl
        same (some e) s = ground arith

    sleep-OnlyBatches : (n : Number) → Keeps (OnlyBatches before) (sleep env n)
    unfolding sleep
    sleep-OnlyBatches n = record { at = λ s h. OnlyBatches-of_sent s _ refl h }

    attempts-OnlyBatches :
        (fuel attempt : ℕ) (p : Post)
        → IsBatch p
        → Keeps (OnlyBatches before) (attempts env fuel attempt p)
    unfolding attempts
    attempts-OnlyBatches zero attempt p b = record { at = λ s h. h }
    attempts-OnlyBatches (suc fuel) attempt p b =
        Keeps-bind {A = Answer} _ _ (fetch-OnlyBatches p b) λ answer.
          Keeps-judged _ _ (judge env.runtime answer)
            (λ json. Keeps-bind _ _ (note_outcome-OnlyBatches none) λ _. Keeps-pure json)
            λ e.
              Keeps-if (not (retryable e) || leb env.config.max_retries attempt) _ _
                (Keeps-bind _ _ (note_outcome-OnlyBatches (some e)) λ _. Keeps-throw (api e))
                (Keeps-bind _ _ (sleep-OnlyBatches (delay env.config e attempt))
                  λ _. attempts-OnlyBatches fuel (attempt + 1) p b)

    request-OnlyBatches :
        (body : Value) → Keeps (OnlyBatches before) (request env "/v1/events/batch" body keepalive)
    unfolding request
    request-OnlyBatches body = record {
      at = λ s h. (attempts-OnlyBatches _ 0 _ (record { url = refl; kept_alive = refl })).at s h;
    }

    envelope-OnlyBatches : Keeps (OnlyBatches before) (envelope env)
    unfolding envelope
    envelope-OnlyBatches = record { at = λ s h. OnlyBatches-of_sent s _ refl h }

    persist-OnlyBatches : Keeps (OnlyBatches before) (modify (persist env))
    unfolding persist
    persist-OnlyBatches = Keeps-modify _ λ s. OnlyBatches-of_sent s (persist env s) (same s)
      where
        same : (s : State S) → (persist env s).sent ≡ s.sent
        same s = ground arith

    send_batch-OnlyBatches :
        (events : List Value) → Keeps (OnlyBatches before) (send_batch env events keepalive)
    unfolding send_batch
    send_batch-OnlyBatches events =
        Keeps-bind _ _ envelope-OnlyBatches
          λ extra. Keeps-bind _ _ (request-OnlyBatches _) λ _. persist-OnlyBatches

    drain_failed-OnlyBatches :
        (events : List Value) (e : ApiError)
        → Keeps (OnlyBatches before) (drain_failed env events e)
    drain_failed-OnlyBatches events e = record {
      at = λ s h.
          OnlyBatches-of_sent s (drain_failed env events e s).1 (drain_failed_lem env events e s).1
            h;
    }

    drain-OnlyBatches : (fuel : ℕ) → Keeps (OnlyBatches before) (drain env fuel keepalive)
    unfolding drain take_batch
    drain-OnlyBatches zero = record { at = λ s h. h }
    drain-OnlyBatches (suc fuel) = Keeps-bind {A = List Value} _ _ (Keeps-gets _) λ queue.
        Keeps-if (is_empty queue) _ _ (Keeps-pure tt) (
          Keeps-bind {A = List Value} _ _ (Keeps-gets _) λ events.
            Keeps-bind _ _ (Keeps-modify _ λ s. OnlyBatches-of_sent s (take_batch s) refl) λ _.
              Keeps-bind _ _ (Keeps-attempt _ (send_batch-OnlyBatches events)) λ result.
                Keeps-after _ _ result (λ _. drain-OnlyBatches fuel)
                  λ e. drain_failed-OnlyBatches events (as_api_error e))

  -- Whatever the network does, a flush sends nothing but posts of batches, each with the
  -- `keepalive` that the flush was called with.
  pub flush-OnlyBatches : (s : State S) → OnlyBatches s.sent (flush env keepalive s).1
  unfolding flush clear_timer
  flush-OnlyBatches s =
      (drain-OnlyBatches s.sent (suc (length s.queue))).at (clear_timer s)
        (record { new = []; log = sym (append-nil s.sent); batches = tt })
