-- ===== src/Browser/Turns/Settling.antt =====
-- The steps by which an event comes to the facade: its run ends, and its continuation runs.
use iforevents_sdks.Prelude.{
  ℕ, ◌≡◌, refl, ◌∙◌, List, [], ◌∷◌, ◌++◌, append-nil, append_assoc, length, eqb, Bool-cases, inl,
  inr, arith,
}
use iforevents_sdks.Browser.Turns.{Event, ClientCall, woken, asleep}
use iforevents_sdks.Browser.Turns.Pending.{
  of_run, numbered, hands_of, of_run-append, of_run-one, woken_lem, asleep_lem,
}
use iforevents_sdks.Browser.Turns.Invariant.{Parts, going, Consistent}

module _ (p : Parts) (cs : List ClientCall) (n : ℕ) where
  pub handed-Consistent :
      (e : Event) (rest : List (ℕ × Event))
      → Consistent (record p { queued = (n, e) ∷ rest }) cs
      → Consistent (record p { handed = p.handed ++ (n, e) ∷ []; queued = rest }) cs
  handed-Consistent e rest h = record {
    begun_in_order = h.begun_in_order;
    in_order = λ k. handed-going k ∙ h.in_order k;
    none_early = λ k early.
        let (before, now) = h.none_early k early in
        elim (Bool-cases (eqb n k)) [
          | inl same ↦ ground arith
          | inr other ↦ ground (arith, of_run-append k p.handed ((n, e) ∷ []))
        ];
    none_left = h.none_left;
  }
    where
      handed-going :
          (k : ℕ)
          → going k (record p { handed = p.handed ++ (n, e) ∷ []; queued = rest })
            ≡ going k (record p { queued = (n, e) ∷ rest })
      handed-going k =
          rw
            (
              of_run-append k p.handed ((n, e) ∷ []),
              of_run-one k n e rest,
              append_assoc (of_run k p.handed),
              append_assoc (of_run k ((n, e) ∷ [])),
            )
            refl

  pub ended-Consistent :
      Consistent p cs
      → Consistent
          (record p {
            ended = n ∷ p.ended;
            queued = p.queued ++ hands_of (woken n p.waiting);
            waiting = asleep n p.waiting;
          })
          cs
  ended-Consistent h = record {
    begun_in_order = h.begun_in_order;
    in_order = λ k. ended-going k ∙ h.in_order k;
    none_early = λ k early.
        let (before, now) = h.none_early k (ground arith) in
        (
          before,
          ground (
            arith,
            of_run-append k p.queued (hands_of (woken n p.waiting)),
            woken_lem k n p.waiting,
          ),
        );
    none_left = λ k over. elim (Bool-cases (eqb n k)) [
      | inl same ↦ ground (arith, asleep_lem k n p.waiting)
      | inr other ↦
          let none = h.none_left k (ground arith) in ground (arith, asleep_lem k n p.waiting)
    ];
  }
    where
      ended-going :
          (k : ℕ)
          → going k (record p {
            ended = n ∷ p.ended;
            queued = p.queued ++ hands_of (woken n p.waiting);
            waiting = asleep n p.waiting;
          })
            ≡ going k p
      ended-going k =
          rw
            (
              of_run-append k p.queued (hands_of (woken n p.waiting)),
              woken_lem k n p.waiting,
              asleep_lem k n p.waiting,
            )
            (elim (Bool-cases (eqb n k)) [
              | inl same ↦ ground (
                arith,
                append_assoc (of_run k p.queued) (of_run k p.waiting)
                    (of_run k (numbered (length p.begun) p.pending)),
              )
              | inr other ↦ ground (arith, append-nil (of_run k p.queued))
            ])
