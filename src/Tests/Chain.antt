-- ===== src/Tests/Chain.antt =====
-- Two flushes, the first of which is refused.
use iforevents_sdks.Prelude.{◌≡◌, refl, true, [], ◌∷◌}
use iforevents_sdks.Errors.{network_error, retryable_kind}
use iforevents_sdks.Storage.{Entries}
use iforevents_sdks.Api.Queue.{
  take_batch, put_back, persist, drain_failed, report, schedule, clear_timer,
}
use iforevents_sdks.Api.Interleaved
use iforevents_sdks.Api.Interleaved.Chain.{
  Chain, settled, sending, Reach, start, further, flushes, begins, fails, in_line, line,
}
use iforevents_sdks.Api.Interleaved.Refines.{Reach-line}
use iforevents_sdks.Tests.{kept, running, waiting}

-- The second drain sends what the first one put back.
abbrev retried : Chain Entries
retried = record {
  state =
      take_batch
        (drain_failed kept waiting (network_error "offline")
          (take_batch (clear_timer (clear_timer running)))).1;
  drains = settled ∷ sending waiting ∷ [];
}

Reach-retried : Reach kept running retried
unfolding drain_failed put_back persist report schedule retryable_kind take_batch clear_timer
Reach-retried =
    further
      (further
        (further (further (further start (flushes _)) (flushes _)) (begins _ [] (_ ∷ []) refl refl))
        (fails _ [] (_ ∷ []) waiting (network_error "offline") refl))
      (begins _ (settled ∷ []) [] refl refl)

Reach-line_example : (in_line retried.drains ≡ true) × Interleaved.Reach kept running (line retried)
Reach-line_example = Reach-line kept running Reach-retried
