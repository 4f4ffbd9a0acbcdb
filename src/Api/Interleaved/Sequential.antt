-- ===== src/Api/Interleaved/Sequential.antt =====
-- Flushes that run to their ends by themselves, and the steps of the queue.
use iforevents_sdks.Prelude.{
  ℕ, zero, suc, ◌≡◌, refl, sym, ◌∙◌, ap, Bool, true, false, inl, inr, List, [], ◌++◌, append-nil,
  append_assoc, length, take, drop, Bool-cases, arith,
}
use iforevents_sdks.Js.Value.{Value}
use iforevents_sdks.Errors.{ApiError}
use iforevents_sdks.Api.{Env, State, Config, max_batch}
use iforevents_sdks.Api.Queue.{
  is_empty, schedule, clear_timer, batch, take_batch, put_back, persist, drain_failed, drain, flush,
}
use iforevents_sdks.Api.Request.Ends.{Settles}
use iforevents_sdks.Api.Queue.Delivery.{all_accepted, accepted_events, send_batch_sends}
use iforevents_sdks.Api.Queue.Drains.{drain_empty, drain_sent, drain_refused, drain_failed_lem}
use iforevents_sdks.Api.Interleaved.{Line, takes, succeeds, fails, clears_timer}
use iforevents_sdks.Api.Interleaved.Order.{
  Story, begins, goes_on, accepted_by, tracked_by, persist_keeps_queue,
}

put_back-queue :
    {S : Type 0} (config : Config) (events : List Value) (e : ApiError) (s t : State S)
    → s.queue ≡ t.queue
    → (put_back config events e s).queue ≡ (put_back config events e t).queue
unfolding put_back schedule
put_back-queue config events e s t same = ground arith

module _ {S : Type 0} (env : Env S) (s : State S) where
  -- The steps from `s`, in which no event is tracked, to a line with nothing in flight that has the
  -- queue of `t`; what they accept is what the api has accepted since.
  pub record Played (t : State S) : Type 0 where
    pub line : Line S
    pub told : List Value
    pub story : Story env s line told []
    pub idle : line.sending ≡ false
    pub landed : line.flight ≡ []
    pub queue : line.state.queue ≡ t.queue
    pub accepted : all_accepted env t ≡ all_accepted env s ++ told

  sent-Played :
      (t u : State S)
      → is_empty t.queue ≡ false
      → all_accepted env u ≡ all_accepted env t ++ batch t
      → u.queue ≡ drop max_batch t.queue
      → Played t
      → Played u
  unfolding accepted_by tracked_by take_batch
  sent-Played t u more took left p =
      let l : Line S = p.line in
      let m : Line S = record {
        state = take_batch l.state;
        sending = true;
        flight = batch l.state;
      } in
      let sent =
        goes_on (goes_on p.story (takes l p.idle (ap is_empty p.queue ∙ more))) (succeeds m refl) in
      record {
        line = record { state = persist env m.state; sending = false; flight = [] };
        told = (p.told ++ []) ++ batch l.state;
        story = sent;
        idle = refl;
        landed = refl;
        queue = persist_keeps_queue env m.state ∙ ap (drop max_batch) p.queue ∙ sym left;
        accepted =
            took
            ∙ ap (λ (xs : List Value). xs ++ batch t) p.accepted
            ∙ append_assoc (all_accepted env s) p.told (batch t)
            ∙ rw (append-nil p.told, p.queue) refl;
      }

  refused-Played :
      (t u : State S) (e : ApiError)
      → is_empty t.queue ≡ false
      → all_accepted env u ≡ all_accepted env t
      → u.queue ≡ drop max_batch t.queue
      → Played t
      → Played (drain_failed env (batch t) e u).1
  unfolding accepted_by tracked_by take_batch
  refused-Played t u e more same left p =
      let l : Line S = p.line in
      let m : Line S = record {
        state = take_batch l.state;
        sending = true;
        flight = batch l.state;
      } in
      let (_, _, back, _) = drain_failed_lem env (batch l.state) e m.state in
      let (_, sent, back', _) = drain_failed_lem env (batch t) e u in
      record {
        line = record {
          state = (drain_failed env (batch l.state) e m.state).1;
          sending = false;
          flight = [];
        };
        told = (p.told ++ []) ++ [];
        story =
            goes_on (goes_on p.story (takes l p.idle (ap is_empty p.queue ∙ more)))
              (fails m e refl);
        idle = refl;
        landed = refl;
        queue =
            back
            ∙ put_back-queue env.config (batch l.state) e m.state u
                (ap (drop max_batch) p.queue ∙ sym left)
            ∙ ap (λ (q : List Value). (put_back env.config (take max_batch q) e u).queue) p.queue
            ∙ sym back';
        accepted =
            ap (accepted_events env 0) sent
            ∙ same
            ∙ p.accepted
            ∙ rw (append-nil p.told, append-nil p.told) refl;
      }

  drain-Played :
      (settles : Settles env) (fuel : ℕ) (keepalive : Bool) (t : State S)
      → Played t
      → Played (drain env fuel keepalive t).1
  unfolding take_batch
  drain-Played settles zero keepalive t p = unfold drain in p
  drain-Played settles (suc fuel) keepalive t p = elim (Bool-cases (is_empty t.queue)) [
    | inl done ↦ rw (drain_empty env fuel keepalive t done) p
    | inr more ↦ elim (send_batch_sends env settles (batch t) keepalive (take_batch t)) [
      | inl (r, took, kept) ↦
          rw (drain_sent env fuel keepalive t more r)
            (drain-Played settles fuel keepalive _ (sent-Played t _ more took kept.queue p))
      | inr (e, n, r, _, same, kept) ↦
          rw (drain_refused env fuel keepalive t e more r)
            (refused-Played t _ e more same kept.queue p)
    ]
  ]

-- Where every fetch and the body of every response settles, a flush that runs by itself goes
-- through the steps of the queue: some of them, with no event tracked, lead from its first state to
-- a line with nothing in flight and the queue that it leaves, and what they accept, in order, is
-- what the api has accepted.
pub flush-Played :
    {S : Type 0} (env : Env S) (settles : Settles env) (keepalive : Bool) (s : State S)
    → Played env s (flush env keepalive s).1
unfolding flush clear_timer accepted_by tracked_by
flush-Played env settles keepalive s =
    drain-Played env s settles (suc (length s.queue)) keepalive (clear_timer s) (record {
      line = record { state = clear_timer s; sending = false; flight = [] };
      told = [];
      story = goes_on begins (clears_timer _);
      idle = refl;
      landed = refl;
      queue = refl;
      accepted = sym (append-nil (all_accepted env s));
    })
