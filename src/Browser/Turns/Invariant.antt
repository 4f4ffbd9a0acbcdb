-- ===== src/Browser/Turns/Invariant.antt =====
-- What holds of a client however its calls interleave, by the parts of its state.
use iforevents_sdks.Prelude.{
  ℕ, suc, ◌+◌, ◌≡◌, refl, sym, ◌∙◌, ap, subst, Bool, true, false, ◌||◌, List, [], ◌∷◌, ◌++◌,
  append_assoc, length, length-append, eqb, Bool-cases, inl, inr, arith,
}
use iforevents_sdks.Browser.Turns.{Event, Person, ClientCall, identifies, sends, Turns, is_one_of}
use iforevents_sdks.Browser.Turns.Pending.{
  of_run, numbered, people, hands_of, pending, of_run-append, numbered-append, numbered-one,
  of_run-one, people-append,
}

-- The runs begun and those that have ended; the events handed over, those whose continuation is
-- queued and those that wait for a run; and the calls that have not come past `await ready`.
pub record Parts : Type 0 where
  pub begun : List Person
  pub ended : List ℕ
  pub handed : List (ℕ × Event)
  pub queued : List (ℕ × Event)
  pub waiting : List (ℕ × Event)
  pub pending : List ClientCall

abbrev pub parts : Turns → Parts
parts t = record {
  begun = t.begun;
  ended = t.ended;
  handed = t.handed;
  queued = hands_of t.jobs;
  waiting = t.waiting;
  pending = pending t;
}

abbrev pub going : ℕ → Parts → List Event
going k p =
    of_run k p.handed
    ++ (of_run k p.queued ++ (of_run k p.waiting ++ of_run k (numbered (length p.begun) p.pending)))

abbrev pub is_over : ℕ → List ℕ → Bool
is_over k ended = eqb k 0 || is_one_of k ended

pub record Consistent (p : Parts) (cs : List ClientCall) : Type 0 where
  pub begun_in_order : p.begun ++ people p.pending ≡ people cs
  pub in_order : (k : ℕ) → going k p ≡ of_run k (numbered 0 cs)
  pub none_early :
      (k : ℕ) → is_over k p.ended ≡ false → (of_run k p.handed ≡ []) × (of_run k p.queued ≡ [])
  pub none_left : (k : ℕ) → is_over k p.ended ≡ true → of_run k p.waiting ≡ []

module _ (p : Parts) (cs : List ClientCall) where
  counted : Consistent p cs → length p.begun + length (people p.pending) ≡ length (people cs)
  counted h = sym (length-append p.begun (people p.pending)) ∙ ap length h.begun_in_order

  going-append :
      (k : ℕ) (c : ClientCall)
      → going k (record p { pending = p.pending ++ c ∷ [] })
        ≡ going k p ++ of_run k (numbered (length p.begun + length (people p.pending)) (c ∷ []))
  going-append k c =
      rw
        (
          numbered-append (length p.begun) p.pending (c ∷ []),
          of_run-append k (numbered (length p.begun) p.pending)
              (numbered (length p.begun + length (people p.pending)) (c ∷ [])),
          append_assoc (of_run k p.handed),
          append_assoc (of_run k p.queued),
          append_assoc (of_run k p.waiting),
        )
        refl

  pub called-Consistent :
      (c : ClientCall)
      → Consistent p cs
      → Consistent (record p { pending = p.pending ++ c ∷ [] }) (cs ++ c ∷ [])
  called-Consistent c h = record {
    begun_in_order =
        rw
          (
            people-append p.pending (c ∷ []),
            people-append cs (c ∷ []),
            ← append_assoc p.begun (people p.pending) (people (c ∷ [])),
            h.begun_in_order,
          )
          refl;
    in_order = λ k.
        going-append k c
        ∙ rw
            (
              numbered-one cs c,
              of_run-append k (numbered 0 cs) (numbered (length (people cs)) (c ∷ [])),
              h.in_order k,
              counted h,
            )
            refl;
    none_early = h.none_early;
    none_left = h.none_left;
  }

module _ (p : Parts) (cs : List ClientCall) (rest : List ClientCall) where
  pub identified-Consistent :
      (q : Person)
      → Consistent (record p { pending = identifies q ∷ rest }) cs
      → Consistent (record p { begun = p.begun ++ q ∷ []; pending = rest }) cs
  identified-Consistent q h =
      let more : length (p.begun ++ q ∷ []) ≡ suc (length p.begun) =
        omega (arith, length-append p.begun (q ∷ [])) in
      record {
        begun_in_order = rw (append_assoc p.begun (q ∷ []) (people rest)) h.begun_in_order;
        in_order = λ k. rw more (h.in_order k);
        none_early = h.none_early;
        none_left = h.none_left;
      }

  pub waits-Consistent :
      (e : Event)
      → is_over (length p.begun) p.ended ≡ false
      → Consistent (record p { pending = sends e ∷ rest }) cs
      → Consistent (record p { waiting = p.waiting ++ (length p.begun, e) ∷ []; pending = rest }) cs
  waits-Consistent e early h = record {
    begun_in_order = h.begun_in_order;
    in_order = λ k. sym (waits-going k) ∙ h.in_order k;
    none_early = h.none_early;
    none_left = λ k over. elim (Bool-cases (eqb (length p.begun) k)) [
      | inl same ↦ let n : length p.begun ≡ k = ground arith in cc
      | inr other ↦
          ground (arith, of_run-append k p.waiting ((length p.begun, e) ∷ []), h.none_left k over)
    ];
  }
    where
      waits-going :
          (k : ℕ)
          → going k (record p { pending = sends e ∷ rest })
            ≡ going k (record p { waiting = p.waiting ++ (length p.begun, e) ∷ []; pending = rest })
      waits-going k =
          rw
            (
              of_run-one k (length p.begun) e (numbered (length p.begun) rest),
              of_run-append k p.waiting ((length p.begun, e) ∷ []),
              append_assoc (of_run k p.waiting),
            )
            refl

  pub sent-Consistent :
      (e : Event)
      → is_over (length p.begun) p.ended ≡ true
      → Consistent (record p { pending = sends e ∷ rest }) cs
      → Consistent (record p { queued = p.queued ++ (length p.begun, e) ∷ []; pending = rest }) cs
  sent-Consistent e over h = record {
    begun_in_order = h.begun_in_order;
    in_order = λ k. sym (sent-going k) ∙ h.in_order k;
    none_early = λ k early. elim (Bool-cases (eqb (length p.begun) k)) [
      | inl same ↦ let n : length p.begun ≡ k = ground arith in cc
      | inr other ↦ (
        (h.none_early k early).0,
        ground
            (arith, of_run-append k p.queued ((length p.begun, e) ∷ []), (h.none_early k early).1),
      )
    ];
    none_left = h.none_left;
  }
    where
      sent-going :
          (k : ℕ)
          → going k (record p { pending = sends e ∷ rest })
            ≡ going k (record p { queued = p.queued ++ (length p.begun, e) ∷ []; pending = rest })
      sent-going k =
          rw (of_run-append k p.queued ((length p.begun, e) ∷ []), append_assoc (of_run k p.queued))
            (elim (Bool-cases (eqb (length p.begun) k)) [
              | inl same ↦
                  let n : length p.begun ≡ k = ground arith in
                  let none = h.none_left k (subst (λ m. is_over m p.ended ≡ true) n over) in
                  ground (arith)
              | inr other ↦ ground arith
            ])
