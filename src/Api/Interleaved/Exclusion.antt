-- ===== src/Api/Interleaved/Exclusion.antt =====
-- The drains before and after one that has begun.
use iforevents_sdks.Prelude.{◌≡◌, refl, sym, ◌∙◌, ap, true, false, List, [], ◌∷◌, ◌++◌, arith}
use iforevents_sdks.Api.Interleaved.Chain.{
  Drain, queued, looping, settled, sending, is_settled, is_queued, last_settled, all_settled,
  all_queued, in_line, flights, any_sending,
}

waiting_lem :
    (ds : List Drain)
    → all_queued ds ≡ true
    → (in_line ds ≡ true) × (any_sending ds ≡ false) × (flights ds ≡ [])
waiting_lem [] h = (refl, refl, refl)
waiting_lem (queued ∷ ds) h = let (_, idle, none) = waiting_lem ds h in (h, idle, none)
waiting_lem (looping ∷ ds) h = cc
waiting_lem (settled ∷ ds) h = cc
waiting_lem (sending events ∷ ds) h = cc

-- Where the drains before one are over and those after it wait, it alone counts.
pub alone :
    (before after : List Drain) (d : Drain)
    → all_settled before ≡ true
    → all_queued after ≡ true
    → (in_line (before ++ d ∷ after) ≡ true)
      × (any_sending (before ++ d ∷ after) ≡ any_sending (d ∷ []))
      × (flights (before ++ d ∷ after) ≡ flights (d ∷ []))
alone [] after queued b a = let (_, idle, none) = waiting_lem after a in (a, idle, none)
alone [] after looping b a = let (_, idle, none) = waiting_lem after a in (a, idle, none)
alone [] after settled b a = waiting_lem after a
alone [] after (sending events) b a =
    let (_, _, none) = waiting_lem after a in (a, refl, ap (◌++◌ events) none)
alone (settled ∷ before) after d b a = alone before after d b a
alone (queued ∷ before) after d b a = cc
alone (looping ∷ before) after d b a = cc
alone (sending events ∷ before) after d b a = cc

-- A drain that has not ended keeps those after it waiting.
blocked :
    (d : Drain) (before after : List Drain)
    → is_settled d ≡ false
    → all_queued (before ++ after) ≡ true
    → last_settled (d ∷ before) ≡ false
blocked d [] after running waits = running
blocked d (e ∷ before) after running waits =
    let queued_next : is_queued e ≡ true = ground arith in
    blocked e before after (queued_runs e queued_next) (ground arith)
  where
    queued_runs : (e : Drain) → is_queued e ≡ true → is_settled e ≡ false
    queued_runs queued h = refl
    queued_runs looping h = refl
    queued_runs settled h = cc
    queued_runs (sending events) h = refl

not_queued :
    (before after : List Drain) (d : Drain)
    → is_queued d ≡ false
    → all_queued (before ++ d ∷ after) ≡ false
not_queued [] after d h = ground arith
not_queued (e ∷ before) after d h = ground (arith, not_queued before after d h)

-- Around a drain that has begun and not ended.
pub around_begun :
    (before after : List Drain) (d : Drain)
    → is_settled d ≡ false
    → is_queued d ≡ false
    → in_line (before ++ d ∷ after) ≡ true
    → (all_settled before ≡ true) × (all_queued after ≡ true)
around_begun [] after queued running begun h = cc
around_begun [] after settled running begun h = cc
around_begun [] after looping running begun h = (refl, h)
around_begun [] after (sending events) running begun h = (refl, h)
around_begun (settled ∷ before) after d running begun h =
    around_begun before after d running begun h
around_begun (queued ∷ before) after d running begun h =
    let none = not_queued before after d begun in cc
around_begun (looping ∷ before) after d running begun h =
    let none = not_queued before after d begun in cc
around_begun (sending es ∷ before) after d running begun h =
    let none = not_queued before after d begun in cc

-- Around a drain that begins.
pub around_queued :
    (before after : List Drain)
    → in_line (before ++ queued ∷ after) ≡ true
    → last_settled before ≡ true
    → (all_settled before ≡ true) × (all_queued after ≡ true)
around_queued [] after h last = (refl, h)
around_queued (settled ∷ []) after h last = (refl, h)
around_queued (settled ∷ d ∷ before) after h last = around_queued (d ∷ before) after h last
around_queued (queued ∷ before) after h last =
    let none = blocked queued before (queued ∷ after) refl h in cc
around_queued (looping ∷ before) after h last =
    let none = blocked looping before (queued ∷ after) refl h in cc
around_queued (sending es ∷ before) after h last =
    let none = blocked (sending es) before (queued ∷ after) refl h in cc

queued_more : (ds : List Drain) → all_queued ds ≡ true → all_queued (ds ++ queued ∷ []) ≡ true
queued_more [] h = refl
queued_more (d ∷ ds) h = ground (arith, queued_more ds (ground arith))

-- One more drain waits at the end.
pub queue_up :
    (ds : List Drain)
    → in_line ds ≡ true
    → (in_line (ds ++ queued ∷ []) ≡ true)
      × (any_sending (ds ++ queued ∷ []) ≡ any_sending ds)
      × (flights (ds ++ queued ∷ []) ≡ flights ds)
queue_up [] h = (refl, refl, refl)
queue_up (settled ∷ ds) h = queue_up ds h
queue_up (queued ∷ ds) h =
    let more = queued_more ds h in
    let (_, idle, none) = waiting_lem ds h in
    let (_, idle', none') = waiting_lem (ds ++ queued ∷ []) more in
    (more, idle' ∙ sym idle, none' ∙ sym none)
queue_up (looping ∷ ds) h =
    let more = queued_more ds h in
    let (_, idle, none) = waiting_lem ds h in
    let (_, idle', none') = waiting_lem (ds ++ queued ∷ []) more in
    (more, idle' ∙ sym idle, none' ∙ sym none)
queue_up (sending events ∷ ds) h =
    let more = queued_more ds h in
    let (_, _, none) = waiting_lem ds h in
    let (_, _, none') = waiting_lem (ds ++ queued ∷ []) more in
    (more, refl, ap (◌++◌ events) (none' ∙ sym none))
