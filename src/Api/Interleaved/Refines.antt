-- ===== src/Api/Interleaved/Refines.antt =====
-- The drains of all flushes, seen as the one batch that may be in flight.
use iforevents_sdks.Prelude.{
  ◌≡◌, refl, subst, true, false, List, [], ◌∷◌, ◌++◌, append-nil, Bool-cases, inl, inr,
}
use iforevents_sdks.Api.{Env, State}
use iforevents_sdks.Api.Queue.{is_empty, batch, persist, drain_failed}
use iforevents_sdks.Api.Interleaved.{Line, queues, sets_timer, clears_timer, takes, succeeds, fails}
use iforevents_sdks.Api.Interleaved
use iforevents_sdks.Api.Interleaved.Chain.{
  Drain, queued, looping, settled, sending, Chain, is_settled, is_queued, last_settled, loop_head,
  goes_on, Reach, start, further, all_settled, all_queued, in_line, flights, any_sending, line,
}
use iforevents_sdks.Api.Interleaved.Chain
use iforevents_sdks.Api.Interleaved.Exclusion.{alone, around_begun, around_queued, queue_up}

module _ {S : Type 0} (env : Env S) (s : State S) where
  -- What a chain of drains comes to.
  abbrev pub Refined : Chain S → Type 0
  Refined c = (in_line c.drains ≡ true) × Interleaved.Reach env s (line c)

  goes_on-Refined :
      (t : State S) (before after : List Drain)
      → (all_settled before ≡ true) × (all_queued after ≡ true)
      → Interleaved.Reach env s (record { state = t; sending = false; flight = [] })
      → Refined (goes_on t before after)
  goes_on-Refined t before after (b, a) r = elim (Bool-cases (is_empty t.queue)) [
    | inl done ↦
        let (fine, idle, none) = alone before after settled b a in
        rw (done, fine, idle, none) (refl, r)
    | inr more ↦
        let (fine, busy, flight) = alone before after (sending (batch t)) b a in
        rw (more, fine, busy, flight, append-nil (batch t))
          (refl, Interleaved.further r (takes _ refl more))
  ]

  -- The line where one drain has begun, or begins.
  at_line :
      (c : Chain S) (before after : List Drain) (d : Drain)
      → c.drains ≡ before ++ d ∷ after
      → (all_settled before ≡ true) × (all_queued after ≡ true)
      → Interleaved.Reach env s (line c)
      → Interleaved.Reach env s
          (record { state = c.state; sending = any_sending (d ∷ []); flight = flights (d ∷ []) })
  at_line c before after d same (b, a) r =
      let (_, busy, flight) = alone before after d b a in
      subst
        (λ x.
          Interleaved.Reach env s
            (record { state = c.state; sending = any_sending (d ∷ []); flight = x }))
        flight
        (subst
          (λ x.
            Interleaved.Reach env s
              (record { state = c.state; sending = x; flight = flights (before ++ d ∷ after) }))
          busy
          (subst
            (λ ds.
              Interleaved.Reach env s
                (record { state = c.state; sending = any_sending ds; flight = flights ds }))
            same r))

  begun-Refined :
      (c : Chain S) (before after : List Drain) (d : Drain)
      → c.drains ≡ before ++ d ∷ after
      → is_settled d ≡ false
      → is_queued d ≡ false
      → Refined c
      → ((all_settled before ≡ true) × (all_queued after ≡ true))
        × Interleaved.Reach env s
            (record { state = c.state; sending = any_sending (d ∷ []); flight = flights (d ∷ []) })
  begun-Refined c before after d same running begun (h, r) =
      let beside =
        around_begun before after d running begun (subst (λ ds. in_line ds ≡ true) same h) in
      (beside, at_line c before after d same beside r)

  ended-Refined :
      (t : State S) (before after : List Drain) (d : Drain)
      → any_sending (d ∷ []) ≡ false
      → flights (d ∷ []) ≡ []
      → (all_settled before ≡ true) × (all_queued after ≡ true)
      → Interleaved.Reach env s (record { state = t; sending = false; flight = [] })
      → Refined (record { state = t; drains = before ++ d ∷ after })
  ended-Refined t before after d idle none (b, a) r =
      let (fine, idle', none') = alone before after d b a in (fine, rw (idle', none', idle, none) r)

  Step-Refined : {c d : Chain S} → Chain.Step env c d → Refined c → Refined d
  Step-Refined (Chain.queues c event) (h, r) = (h, Interleaved.further r (queues (line c) event))
  Step-Refined (Chain.sets_timer c) (h, r) = (h, Interleaved.further r (sets_timer (line c)))
  Step-Refined (Chain.clears_timer c) (h, r) = (h, Interleaved.further r (clears_timer (line c)))
  Step-Refined (Chain.flushes c) (h, r) =
      let (fine, busy, flight) = queue_up c.drains h in
      (fine, rw (busy, flight) (Interleaved.further r (clears_timer (line c))))
  Step-Refined (Chain.begins c before after same last) (h, r) =
      let beside = around_queued before after (subst (λ ds. in_line ds ≡ true) same h) last in
      goes_on-Refined c.state before after beside (at_line c before after queued same beside r)
  Step-Refined (Chain.succeeds c before after events same) h =
      let (beside, r) = begun-Refined c before after (sending events) same refl refl h in
      ended-Refined (persist env c.state) before after looping refl refl beside
        (Interleaved.further r (succeeds _ refl))
  Step-Refined (Chain.loops c before after same) h =
      let (beside, r) = begun-Refined c before after looping same refl refl h in
      goes_on-Refined c.state before after beside r
  Step-Refined (Chain.fails c before after events e same) h =
      let (beside, r) = begun-Refined c before after (sending events) same refl refl h in
      ended-Refined (drain_failed env events e c.state).1 before after settled refl refl beside (
        subst
          (λ es.
            Interleaved.Reach env s
              (record { state = (drain_failed env es e c.state).1; sending = false; flight = [] }))
          (append-nil events) (Interleaved.further r (fails _ e refl)))

  -- However often `flush` is called, and whatever interleaves with its drains: a drain begins only
  -- once those before it have ended, so one batch is in flight at most, and what all the drains do
  -- together are steps of the one line of batches.
  pub Reach-line : {c : Chain S} → Reach env s c → Refined c
  Reach-line start = (refl, Interleaved.start)
  Reach-line (further r step) = Step-Refined step (Reach-line r)
