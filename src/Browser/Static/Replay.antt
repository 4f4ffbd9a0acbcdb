-- ===== src/Browser/Static/Replay.antt =====
-- The order in which the calls of a page take effect.
use iforevents_sdks.Prelude.{
  ℕ, ◌+◌, String, ◌≡◌, refl, ◌∙◌, ap, sym, subst, Bool, true, false, none, some, List, [], ◌∷◌,
  ◌++◌, ◌==◌, append-nil, append_assoc,
}
use iforevents_sdks.Js.Value.{Value}
use iforevents_sdks.Exec.{Outcome, ok, thrown, out_of_fuel, Ends}
use iforevents_sdks.Types.{IntegrationResult}
use iforevents_sdks.Facade.{Clock}
use iforevents_sdks.Browser.{Browser}
use iforevents_sdks.Browser.Static.{
  QueuedCall, track, page, identify, reset, flush, unknown, waiting, live, Static, call_of, need,
  flush_client, run_static, linked, apply, apply_all, drain_queue, push, init,
}

module _ {S : Type 0} (clock : Clock) (text : Value → String) where
  -- The page pushes calls.
  unfoldable pub push_all : List QueuedCall → Static S → Static S
  push_all [] s = s
  push_all (call ∷ calls) s = push_all calls (push clock text call s)

  -- After `init`: the queue is live, over a client.
  abbrev running : Browser S → Bool → ℕ → Static S
  running b stuck warned = record {
    client = some b;
    window = true;
    queue = live;
    stuck = stuck;
    warned = warned;
  }

  apply-running :
      (call : QueuedCall) (b : Browser S) (warned : ℕ)
      → apply clock text call (running b false warned)
        ≡ linked clock text
            (call_of clock text call b).0
            (running (call_of clock text call b).1 false warned)
  unfolding apply run_static need flush_client call_of
  apply-running (track name properties) b warned = refl
  apply-running (page argument properties options) b warned = refl
  apply-running (identify custom_id traits) b warned = refl
  apply-running reset b warned = refl
  apply-running flush b warned = refl
  apply-running (unknown method) b warned = refl

  apply_stuck :
      (call : QueuedCall) (b : Browser S) (warned : ℕ)
      → apply clock text call (running b true warned) ≡ running b true warned
  unfolding apply
  apply_stuck (track name properties) b warned = refl
  apply_stuck (page argument properties options) b warned = refl
  apply_stuck (identify custom_id traits) b warned = refl
  apply_stuck reset b warned = refl
  apply_stuck flush b warned = refl
  apply_stuck (unknown method) b warned = refl

  -- A call that is applied leads to such a state again.
  next_running :
      (P : Static S → Type 0) (call : QueuedCall)
      → ((b : Browser S) (stuck : Bool) (warned : ℕ) → P (running b stuck warned))
      → (b : Browser S) (stuck : Bool) (warned : ℕ)
      → P (apply clock text call (running b stuck warned))
  next_running P call h b true warned = subst P (sym (apply_stuck call b warned)) (h b true warned)
  next_running P call h b false warned =
      subst P (sym (apply-running call b warned))
        (go (call_of clock text call b).0 (call_of clock text call b).1)
    where
      go :
          (o : Outcome (List IntegrationResult)) (b' : Browser S)
          → P (linked clock text o (running b' false warned))
      go (ok results) b' = h b' false warned
      go (thrown e) b' = h b' false (warned + 1)
      go out_of_fuel b' = h b' true warned

  push_live :
      (calls : List QueuedCall) (b : Browser S) (stuck : Bool) (warned : ℕ)
      → push_all calls (running b stuck warned)
        ≡ apply_all clock text calls (running b stuck warned)
  unfolding push_all apply_all push
  push_live [] b stuck warned = refl
  push_live (call ∷ calls) b stuck warned =
      next_running (λ s. push_all calls s ≡ apply_all clock text calls s) call (push_live calls) b
        stuck warned

  push_after :
      (before calls : List QueuedCall) (b : Browser S) (stuck : Bool) (warned : ℕ)
      → push_all calls (apply_all clock text before (running b stuck warned))
        ≡ apply_all clock text (before ++ calls) (running b stuck warned)
  unfolding apply_all
  push_after [] calls b stuck warned = push_live calls b stuck warned
  push_after (call ∷ before) calls b stuck warned =
      next_running
        (λ s.
          push_all calls (apply_all clock text before s) ≡ apply_all clock text (before ++ calls) s)
        call (push_after before calls) b stuck warned

  -- A page that waits for its script.
  abbrev pub loading : List QueuedCall → ℕ → Static S
  loading calls warned = record {
    client = none;
    window = true;
    queue = waiting calls;
    stuck = false;
    warned = warned;
  }

  push_waiting :
      (before calls : List QueuedCall) (warned : ℕ)
      → push_all calls (loading before warned) ≡ loading (before ++ calls) warned
  unfolding push_all push
  push_waiting before [] warned = ap (λ cs. loading cs warned) (sym (append-nil before))
  push_waiting before (call ∷ calls) warned =
      push_waiting (before ++ call ∷ []) calls warned
      ∙ ap (λ cs. loading cs warned) (append_assoc before (call ∷ []) calls)

  module _ (create : String → Outcome (Browser S)) (project_key : String) (b : Browser S) where
    init_applies :
        (calls : List QueuedCall) (warned : ℕ)
        → (project_key == "") ≡ false
        → create project_key ≡ ok b
        → init clock text create project_key (loading calls warned)
          ≡ (ok tt, apply_all clock text calls (running b false warned))
    unfolding init drain_queue
    init_applies calls warned n c = rw (n, c) refl

    -- It is the same for a page whether it pushes calls before `init` or after it: where the key is
    -- not empty and the client can be made, calls pushed once `init` has been called leave
    -- everything as if they had been pushed before it, behind those that were.
    pub push_all-init :
        (before calls : List QueuedCall) (warned : ℕ)
        → (project_key == "") ≡ false
        → create project_key ≡ ok b
        → push_all calls (init clock text create project_key (loading before warned)).1
          ≡ (init clock text create project_key (push_all calls (loading before warned))).1
    push_all-init before calls warned n c =
        ap (λ r. push_all calls r.1) (init_applies before warned n c)
        ∙ push_after before calls b false warned
        ∙ sym (
            ap (λ s. (init clock text create project_key s).1) (push_waiting before calls warned)
            ∙ ap (λ r. r.1) (init_applies (before ++ calls) warned n c))

  -- The client after the calls, one after the other; what they come to is not looked at.
  unfoldable pub in_order : List QueuedCall → Browser S → Browser S
  unfolding call_of
  in_order [] b = b
  in_order (call ∷ calls) b = in_order calls (call_of clock text call b).1

  -- Each call comes to an end, in that order.
  unfoldable pub AllEnd : List QueuedCall → Browser S → Type 0
  AllEnd [] b = Unit
  AllEnd (call ∷ calls) b =
      Ends (call_of clock text call b).0 × AllEnd calls (call_of clock text call b).1

  -- A call that has ended does not hold up the calls behind it.
  after_linked :
      (o : Outcome (List IntegrationResult)) (calls : List QueuedCall) (b : Browser S) (warned : ℕ)
      → Ends o
      → ((n : ℕ)
          → (apply_all clock text calls (running b false n)).client ≡ some (in_order calls b))
      → (apply_all clock text calls (linked clock text o (running b false warned))).client
        ≡ some (in_order calls b)
  after_linked (ok results) calls b warned h rest = rest warned
  after_linked (thrown e) calls b warned h rest = rest (warned + 1)
  after_linked out_of_fuel calls b warned h rest = elim h [ ]

  apply_all-in_order :
      (calls : List QueuedCall) (b : Browser S) (warned : ℕ)
      → AllEnd calls b
      → (apply_all clock text calls (running b false warned)).client ≡ some (in_order calls b)
  unfolding apply_all in_order AllEnd
  apply_all-in_order [] b warned h = refl
  apply_all-in_order (call ∷ calls) b warned (h, hs) =
      ap (λ (s : Static S). (apply_all clock text calls s).client) (apply-running call b warned)
      ∙ after_linked (call_of clock text call b).0 calls (call_of clock text call b).1 warned h
          λ n. apply_all-in_order calls (call_of clock text call b).1 n hs

  -- Where each of the calls that a page has pushed before `init` comes to an end, `init` replays them
  -- in their order, each on the client that the one before leaves, and one that rejects keeps
  -- none of the others from running.
  pub init_replays :
      (create : String → Outcome (Browser S)) (project_key : String) (b : Browser S)
      (calls : List QueuedCall) (warned : ℕ)
      → (project_key == "") ≡ false
      → create project_key ≡ ok b
      → AllEnd calls b
      → (init clock text create project_key (loading calls warned)).1.client
        ≡ some (in_order calls b)
  init_replays create project_key b calls warned n c h =
      ap (λ r. r.1.client) (init_applies create project_key b calls warned n c)
      ∙ apply_all-in_order calls b warned h
