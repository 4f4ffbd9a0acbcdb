-- ===== src/Facade/FanOut.antt =====
-- A fan-out runs each integration as if it were alone.
use iforevents_sdks.Prelude.{ℕ, ◌+◌, String, ◌≡◌, refl, true, false, none, some, List, [], ◌∷◌}
use iforevents_sdks.Errors.{Error}
use iforevents_sdks.Exec.{Outcome, ok, thrown, out_of_fuel, Exec, Ends}
use iforevents_sdks.Types.{IntegrationResult}
use iforevents_sdks.Integration.{Integration, safe_execute}
use iforevents_sdks.Facade.{Member, Facade, Clock, run_all, fan_out}

-- What a result says of the outcome of a call.
pub data Tells {A : Type 0} : Outcome A → IntegrationResult → Type 0 where
  success : {a : A} {r : IntegrationResult} → r.success ≡ true → r.error ≡ none → Tells (ok a) r
  failure :
      {e : Error} {r : IntegrationResult}
      → r.success ≡ false
      → r.error ≡ some e
      → Tells (thrown e) r

module _ {S : Type 0} (action : Integration S → Exec S (Unit {0})) where
  -- The call of the action by one integration.
  abbrev pub alone : Member S → Outcome (Unit {0}) × S
  alone m = action m.behaviour m.state

  -- Each integration comes to an end with the call.
  unfoldable pub AllEnd : List (Member S) → Type 0
  AllEnd [] = Unit
  AllEnd (m ∷ ms) = Ends (alone m).0 × AllEnd ms

  -- One result for each integration, in their order: it has the name of the integration and tells
  -- what its own call came to, and the integration is in the state in which its own call left it.
  pub data Isolated : List (Member S) → List IntegrationResult → List (Member S) → Type 0 where
    nobody : Isolated [] [] []
    next :
        {m m' : Member S} {r : IntegrationResult} {ms ms' : List (Member S)}
        {rs : List IntegrationResult}
        → r.integration ≡ m.behaviour.name
        → Tells (alone m).0 r
        → m'.behaviour ≡ m.behaviour
        → m'.state ≡ (alone m).1
        → Isolated ms rs ms'
        → Isolated (m ∷ ms) (r ∷ rs) (m' ∷ ms')

  safe_execute-Tells :
      (i : Integration S) (time : String) (o : Outcome (Unit {0}))
      → Ends o
      → (r : IntegrationResult) × ((safe_execute i time o ≡ ok r)
          × (r.integration ≡ i.name)
          × Tells o r)
  unfolding safe_execute
  safe_execute-Tells i time (ok a) h = (_, (refl, refl, success refl refl))
  safe_execute-Tells i time (thrown e) h = (_, (refl, refl, failure refl refl))
  safe_execute-Tells i time out_of_fuel h = elim h [ ]

  run_all-Isolated :
      (finished : ℕ → String) (i : ℕ) (ms : List (Member S))
      → AllEnd ms
      → (rs : List IntegrationResult) × (((run_all action finished i ms).0 ≡ ok rs)
          × Isolated ms rs (run_all action finished i ms).1)
  unfolding run_all AllEnd
  run_all-Isolated finished i [] h = ([], (refl, nobody))
  run_all-Isolated finished i (m ∷ ms) (h, hs) =
      let (r, (same, name, tells)) = safe_execute-Tells m.behaviour (finished i) (alone m).0 h in
      let (rs, (rest, isolated)) = run_all-Isolated finished (i + 1) ms hs in
      (r ∷ rs, (rw (same, rest) refl, next name tells refl refl isolated))

  module _ (clock : Clock) where
    -- Where each integration comes to an end with a call, the call resolves with one result for
    -- each, in their order, whatever they throw: a result says whether its integration threw, and
    -- what, and each integration is left in the state in which the call leaves it alone.
    pub fan_out-Isolated :
        (s : Facade S)
        → AllEnd s.integrations
        → (rs : List IntegrationResult) × (((fan_out clock action s).0 ≡ ok rs)
            × Isolated s.integrations rs (fan_out clock action s).1.integrations)
    unfolding fan_out
    fan_out-Isolated s h = run_all-Isolated (clock.finished s.fan_outs) 0 s.integrations h
