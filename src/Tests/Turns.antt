-- ===== src/Tests/Turns.antt =====
-- A visitor is identified and an event tracked before the client is ready.
use iforevents_sdks.Prelude.{arith, ◌≡◌, ◌⊎◌, refl, true, none, List, [], ◌∷◌, ◌++◌, ◌*◌, length}
use iforevents_sdks.Browser.Turns.{
  Event, tracks, Person, ClientCall, identifies, sends, Turns, new_turns, has_ended, make_call,
  becomes_ready, await_run, run_job, turn, run_ends, Reach, start, calls, readies, turns, ends,
  checkpoint,
}
use iforevents_sdks.Browser.Turns.Pending.{of_run}
use iforevents_sdks.Browser.Turns.Order.{Reach-of_run, checkpoint-of_run}

abbrev ana : Person
ana = record { custom_id = "ana"; traits = none }

abbrev click : Event
click = tracks "click" none

abbrev ana_then_click : List ClientCall
ana_then_click = identifies ana ∷ sends click ∷ []

-- The continuations of both calls have run, and the run of `identify` is under way.
abbrev under_way : Turns
under_way =
    turn (turn (becomes_ready (make_call (sends click) (make_call (identifies ana) new_turns))))

Reach-under_way : Reach under_way ana_then_click
Reach-under_way = turns (turns (readies (calls (calls start (identifies ana)) (sends click))))

Reach-of_run_example :
    ((later : List Person) × (under_way.begun ++ later ≡ ana ∷ []))
    × ((later : List Event) × (of_run 1 under_way.handed ++ later ≡ click ∷ []))
    × ((has_ended 1 under_way ≡ true) ⊎ (of_run 1 under_way.handed ≡ []))
Reach-of_run_example = Reach-of_run Reach-under_way 1

-- The run ends.
abbrev over : Turns
over = run_ends 1 under_way

Reach-over : Reach over ana_then_click
unfolding turn run_job await_run becomes_ready make_call
Reach-over = ends Reach-under_way 1 (omega arith)

checkpoint-of_run_example :
    ((checkpoint (2 * length over.jobs) over).jobs ≡ [])
    × (of_run 1 (checkpoint (2 * length over.jobs) over).handed ≡ click ∷ [])
unfolding run_ends turn run_job await_run becomes_ready make_call
checkpoint-of_run_example = checkpoint-of_run Reach-over refl 1 refl

-- An event that is tracked just before `identify` is handed over after its run has begun.
overtaken :
    let t =
      turn
        (turn (becomes_ready (make_call (identifies ana) (make_call (sends click) new_turns)))) in
    (t.begun ≡ ana ∷ []) × (t.handed ≡ [])
unfolding turn run_job await_run becomes_ready make_call
overtaken = (refl, refl)
