-- ===== src/Browser/Turns/Order.antt =====
-- When the facade is given the events of a client, and in which order.
use iforevents_sdks.Prelude.{
  ℕ, zero, suc, ◌+◌, ◌*◌, ◌-◌, ◌≤◌, ◌≡◌, refl, sym, ◌∙◌, true, List, [], ◌∷◌, ◌++◌, append-nil,
  length, ◌⊎◌, Bool-cases, inl, inr, arith,
}
use iforevents_sdks.Browser.Turns.{
  Event, Person, ClientCall, identifies, sends, Job, begins, hands, Turns, identifying, has_ended,
  await_run, run_job, next_job, turn, Reach, turns, checkpoint,
}
use iforevents_sdks.Browser.Turns.Pending.{of_run, numbered, people, pending}
use iforevents_sdks.Browser.Turns.Invariant.{parts, going}
use iforevents_sdks.Browser.Turns.Steps.{Reach-Consistent, next_job_keeps}

-- However calls, continuations and runs of `identify` interleave: the runs begin in the order of
-- the calls of `identify`; the events that the facade was given after n of them were called, and
-- before the next, are the first of those called there, in order and none twice; and the n-th run
-- has ended, or there are none of them.
pub Reach-of_run :
    {t : Turns} {cs : List ClientCall}
    → Reach t cs
    → (n : ℕ)
    → ((later : List Person) × (t.begun ++ later ≡ people cs))
      × ((later : List Event) × (of_run n t.handed ++ later ≡ of_run n (numbered 0 cs)))
      × ((has_ended n t ≡ true) ⊎ (of_run n t.handed ≡ []))
Reach-of_run {t} r n =
    let h = (Reach-Consistent r).0 in
    (
      (people (pending t), h.begun_in_order),
      (_, h.in_order n),
      elim (Bool-cases (has_ended n t)) [
        | inl over ↦ inl over
        | inr early ↦ inr (h.none_early n early).0
      ],
    )

-- A call takes two continuations at most.
abbrev weight : List Job → ℕ
weight [] = 0
weight (begins c ∷ js) = 2 + weight js
weight (hands n e ∷ js) = 1 + weight js

weight-append : (xs ys : List Job) → weight (xs ++ ys) ≡ weight xs + weight ys
weight-append [] ys = omega arith
weight-append (begins c ∷ xs) ys = omega (arith, weight-append xs ys)
weight-append (hands n e ∷ xs) ys = omega (arith, weight-append xs ys)

weight-length : (js : List Job) → weight js ≤ 2 * length js
weight-length [] = omega arith
weight-length (begins c ∷ js) = omega (arith, weight-length js)
weight-length (hands n e ∷ js) = omega (arith, weight-length js)

weight-run_job :
    (j : Job) (js : List Job) (t : Turns)
    → weight (run_job j (record t { jobs = js })).jobs + 1 ≤ weight (j ∷ js)
unfolding run_job await_run
weight-run_job (begins (identifies p)) js t = omega arith
weight-run_job (begins (sends e)) js t =
    let more = weight-append js (hands (identifying t) e ∷ []) in ground arith
weight-run_job (hands n e) js t = omega arith

weight-turn : (t : Turns) → weight (turn t).jobs ≤ weight t.jobs - 1
unfolding turn
weight-turn t = go t.jobs refl
  where
    go : (js : List Job) → t.jobs ≡ js → weight (next_job js t).jobs ≤ weight js - 1
    go [] same = rw same (omega arith)
    go (j ∷ js) same = let less = weight-run_job j js t in omega arith

checkpoint-jobs : (fuel : ℕ) (t : Turns) → weight t.jobs ≤ fuel → (checkpoint fuel t).jobs ≡ []
unfolding checkpoint
checkpoint-jobs zero t h = go t.jobs h
  where
    go : (js : List Job) → weight js ≤ 0 → js ≡ []
    go [] h = refl
    go (begins c ∷ js) h = ground arith
    go (hands n e ∷ js) h = ground arith
checkpoint-jobs (suc fuel) t h =
    let less = weight-turn t in checkpoint-jobs fuel (turn t) (omega arith)

checkpoint_keeps :
    (fuel : ℕ) (t : Turns) {cs : List ClientCall}
    → Reach t cs
    → Reach (checkpoint fuel t) cs
      × ((checkpoint fuel t).ready ≡ t.ready)
      × ((checkpoint fuel t).ended ≡ t.ended)
unfolding checkpoint turn
checkpoint_keeps zero t r = (r, refl, refl)
checkpoint_keeps (suc fuel) t r =
    let (ready, _, ended) = next_job_keeps t.jobs t in
    let (reached, ready', ended') = checkpoint_keeps fuel (turn t) (turns r) in
    (reached, ready' ∙ ready, ended' ∙ ended)

going_settled :
    (n : ℕ) (t : Turns)
    → t.jobs ≡ []
    → t.on_ready ≡ []
    → of_run n t.waiting ≡ []
    → going n (parts t) ≡ of_run n t.handed
going_settled n t empty waits none = rw (empty, waits, none, append-nil (of_run n t.handed)) refl

-- Once `ready` is fulfilled and the n-th run of `identify` has ended, the continuations that are
-- queued, and those that they queue, come to an end, and then the facade was given every event
-- called after n calls of `identify` and before the next, in order and each once.
pub checkpoint-of_run :
    {t : Turns} {cs : List ClientCall}
    → Reach t cs
    → t.ready ≡ true
    → (n : ℕ) → has_ended n t ≡ true
    → ((checkpoint (2 * length t.jobs) t).jobs ≡ [])
      × (of_run n (checkpoint (2 * length t.jobs) t).handed ≡ of_run n (numbered 0 cs))
checkpoint-of_run {t} {cs} r ready n over =
    let (reached, same_ready, same_ended) = checkpoint_keeps (2 * length t.jobs) t r in
    let (h, all) = Reach-Consistent reached in
    let empty = checkpoint-jobs (2 * length t.jobs) t (weight-length t.jobs) in
    let none = h.none_left n (rw same_ended over) in
    let waits = all (same_ready ∙ ready) in
    (
      empty,
      sym (going_settled n (checkpoint (2 * length t.jobs) t) empty waits none) ∙ h.in_order n,
    )
