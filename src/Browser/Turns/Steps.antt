-- ===== src/Browser/Turns/Steps.antt =====
-- What each step does to the parts of the state, and so what is reached.
use iforevents_sdks.Prelude.{
  ℕ, ◌≡◌, refl, sym, ◌∙◌, subst, true, List, [], ◌∷◌, ◌++◌, map, append-nil, append_assoc,
  Bool-cases, inl, inr, arith,
}
use iforevents_sdks.Browser.Turns.{
  ClientCall, identifies, sends, Job, begins, hands, Turns, identifying, has_ended, make_call,
  becomes_ready, await_run, run_job, next_job, turn, woken, asleep, run_ends, Reach, start, calls,
  readies, turns, ends,
}
use iforevents_sdks.Browser.Turns.Pending.{
  calls_of, hands_of, pending, calls_of-append, hands_of-append, calls_of-begins, hands_of-begins,
  calls_of-woken,
}
use iforevents_sdks.Browser.Turns.Invariant.{
  parts, Consistent, called-Consistent, identified-Consistent, waits-Consistent, sent-Consistent,
}
use iforevents_sdks.Browser.Turns.Settling.{handed-Consistent, ended-Consistent}

-- Nothing waits for `ready` once it is fulfilled.
abbrev pub AllReady : Turns → Type 0
AllReady t = t.ready ≡ true → t.on_ready ≡ []

parts-make_call :
    (c : ClientCall) (t : Turns)
    → AllReady t
    → parts (make_call c t) ≡ record (parts t) { pending = pending t ++ c ∷ [] }
unfolding make_call
parts-make_call c t h = elim (Bool-cases t.ready) [
  | inl now ↦
      rw
        (
          now,
          calls_of-append t.jobs (begins c ∷ []),
          hands_of-append t.jobs (begins c ∷ []),
          h now,
          append-nil (hands_of t.jobs),
          append-nil (calls_of t.jobs ++ c ∷ []),
          append-nil (calls_of t.jobs),
        )
        refl
  | inr early ↦ rw (early, append_assoc (calls_of t.jobs)) refl
]

AllReady-make_call : (c : ClientCall) (t : Turns) → AllReady t → AllReady (make_call c t)
unfolding make_call
AllReady-make_call c t h ready = ground arith

parts-becomes_ready : (t : Turns) → parts (becomes_ready t) ≡ parts t
unfolding becomes_ready
parts-becomes_ready t =
    rw
      (
        calls_of-append t.jobs (map begins t.on_ready),
        hands_of-append t.jobs (map begins t.on_ready),
        calls_of-begins t.on_ready,
        hands_of-begins t.on_ready,
        append-nil (hands_of t.jobs),
        append-nil (calls_of t.jobs ++ t.on_ready),
      )
      refl

parts-run_ends :
    (n : ℕ) (t : Turns)
    → parts (run_ends n t) ≡ record (parts t) {
      ended = n ∷ t.ended;
      queued = hands_of t.jobs ++ hands_of (woken n t.waiting);
      waiting = asleep n t.waiting;
    }
unfolding run_ends
parts-run_ends n t =
    rw
      (
        calls_of-append t.jobs (woken n t.waiting),
        hands_of-append t.jobs (woken n t.waiting),
        calls_of-woken n t.waiting,
        append-nil,
      )
      refl

-- A run of `iforevents.identify` is begun, and an event sent, by the head of the queue.
run_job-Consistent :
    (j : Job) (js : List Job) (t : Turns) (cs : List ClientCall)
    → Consistent (parts (record t { jobs = j ∷ js })) cs
    → Consistent (parts (run_job j (record t { jobs = js }))) cs
unfolding run_job await_run
run_job-Consistent (begins (identifies p)) js t cs h =
    identified-Consistent (parts (record t { jobs = js })) cs (calls_of js ++ t.on_ready) p h
run_job-Consistent (begins (sends e)) js t cs h = elim (Bool-cases (has_ended (identifying t) t)) [
  | inl over ↦
      rw
        (
          over,
          calls_of-append js (hands (identifying t) e ∷ []),
          hands_of-append js (hands (identifying t) e ∷ []),
          append-nil,
        )
        (sent-Consistent (parts (record t { jobs = js })) cs (calls_of js ++ t.on_ready) e over h)
  | inr early ↦
      rw early
        (waits-Consistent (parts (record t { jobs = js })) cs (calls_of js ++ t.on_ready) e early h)
]
run_job-Consistent (hands n e) js t cs h =
    handed-Consistent (parts (record t { jobs = js })) cs n e (hands_of js) h

next_job-Consistent :
    (js : List Job) (t : Turns) (cs : List ClientCall)
    → t.jobs ≡ js
    → Consistent (parts t) cs
    → Consistent (parts (next_job js t)) cs
next_job-Consistent [] t cs same h = h
next_job-Consistent (j ∷ js) t cs same h =
    run_job-Consistent j js t cs (subst (λ l. Consistent (parts (record t { jobs = l })) cs) same h)

turn-Consistent :
    (t : Turns) (cs : List ClientCall) → Consistent (parts t) cs → Consistent (parts (turn t)) cs
unfolding turn
turn-Consistent t cs h = next_job-Consistent t.jobs t cs refl h

-- A continuation leaves `ready`, what waits for it and the runs that have ended.
run_job_keeps :
    (j : Job) (t : Turns)
    → ((run_job j t).ready ≡ t.ready)
      × ((run_job j t).on_ready ≡ t.on_ready)
      × ((run_job j t).ended ≡ t.ended)
unfolding run_job await_run
run_job_keeps (begins (identifies p)) t = (refl, refl, refl)
run_job_keeps (begins (sends e)) t = ground arith
run_job_keeps (hands n e) t = (refl, refl, refl)

pub next_job_keeps :
    (js : List Job) (t : Turns)
    → ((next_job js t).ready ≡ t.ready)
      × ((next_job js t).on_ready ≡ t.on_ready)
      × ((next_job js t).ended ≡ t.ended)
next_job_keeps [] t = (refl, refl, refl)
next_job_keeps (j ∷ js) t = run_job_keeps j (record t { jobs = js })

pub Reach-Consistent :
    {t : Turns} {cs : List ClientCall} → Reach t cs → Consistent (parts t) cs × AllReady t
unfolding make_call becomes_ready run_ends turn
Reach-Consistent start = (
  record {
    begun_in_order = refl;
    in_order = λ k. refl;
    none_early = λ k early. (refl, refl);
    none_left = λ k over. refl;
  },
  λ ready. refl,
)
Reach-Consistent (calls {t} {cs} r c) =
    let (h, all) = Reach-Consistent r in
    (rw (parts-make_call c t all) (called-Consistent (parts t) cs c h), AllReady-make_call c t all)
Reach-Consistent (readies {t} {cs} r) =
    let (h, all) = Reach-Consistent r in (rw (parts-becomes_ready t) h, λ ready. refl)
Reach-Consistent (turns {t} {cs} r) =
    let (h, all) = Reach-Consistent r in
    let (ready, waits, ended) = next_job_keeps t.jobs t in
    (turn-Consistent t cs h, λ now. waits ∙ all (sym ready ∙ now))
Reach-Consistent (ends {t} {cs} r n begun) =
    let (h, all) = Reach-Consistent r in
    (rw (parts-run_ends n t) (ended-Consistent (parts t) cs n h), all)
