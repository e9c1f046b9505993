-- ===== src/Dispute/Mappers/RoundTrips.antt =====
-- Rows and objects of the dispute service: reading back what was written.
use rent_a_girlfriend.Prelude.{String, ◌≡◌, refl, ap, sym, subst, ◌∙◌, arith, List, [], ◌∷◌, All}
use rent_a_girlfriend.Dispute.Vo.{Result, ok, err, dispute_reason}
use rent_a_girlfriend.Dispute.Aggregate.{Dispute, DisputeEvidence}
use rent_a_girlfriend.Dispute.Mappers.{
  DisputeModel, DisputeEvidenceModel, Saga, refund_saga, payout_saga, to_model, to_domain,
  read_model, domain_of, evidences_to_model, evidences_to_domain, evidence_to_model,
  evidence_to_domain, saga_to_model, saga_to_domain,
}

evidences_to_domain-evidences_to_model :
    (dispute_id : String) (evs : List DisputeEvidence)
    → evidences_to_domain (evidences_to_model dispute_id evs) ≡ evs
unfolding evidences_to_domain evidences_to_model evidence_to_domain evidence_to_model
evidences_to_domain-evidences_to_model dispute_id [] = refl
evidences_to_domain-evidences_to_model dispute_id (ev ∷ evs) =
    ap (λ t. ev ∷ t) (evidences_to_domain-evidences_to_model dispute_id evs)

evidences_to_model-evidences_to_domain :
    (dispute_id : String) (evs : List DisputeEvidenceModel)
    → All (λ (ev : DisputeEvidenceModel). ev.dispute_id ≡ dispute_id) evs
    → evidences_to_model dispute_id (evidences_to_domain evs) ≡ evs
unfolding evidences_to_domain evidences_to_model evidence_to_domain evidence_to_model
evidences_to_model-evidences_to_domain dispute_id [] h = refl
evidences_to_model-evidences_to_domain dispute_id (ev ∷ evs) (h, hs) =
    rw (h, evidences_to_model-evidences_to_domain dispute_id evs hs) refl

-- A dispute with a valid reason is read back from its row as it was, but without the events that it
-- had not published.
pub to_domain-to_model :
    (d : Dispute)
    → dispute_reason d.reason ≡ ok d.reason
    → to_domain (to_model d) ≡ ok (record d { events = [] })
unfolding to_domain read_model to_model domain_of
to_domain-to_model d h =
    ap (read_model (to_model d)) h
    ∙ ap (λ evs. ok (record d { evidences = evs; events = [] }))
        (evidences_to_domain-evidences_to_model d.dispute_id d.evidences)

pub reason_kept :
    (value : String) {reason : String} → dispute_reason value ≡ ok reason → value ≡ reason
unfolding dispute_reason
reason_kept value h = ground arith

-- A row whose evidences are its own: if it can be read as a dispute, the dispute is stored as that
-- row again.
pub to_model-to_domain :
    (m : DisputeModel) {d : Dispute}
    → All (λ (ev : DisputeEvidenceModel). ev.dispute_id ≡ m.dispute_id) m.evidences
    → to_domain m ≡ ok d
    → to_model d ≡ m
unfolding to_domain to_model domain_of
to_model-to_domain m {d} own h = next (dispute_reason m.reason) refl h
  where
    written : (reason : String) → m.reason ≡ reason → to_model (domain_of m reason) ≡ m
    written reason e =
        rw (sym e, evidences_to_model-evidences_to_domain m.dispute_id m.evidences own) refl

    next :
        (r : Result String) → dispute_reason m.reason ≡ r → read_model m r ≡ ok d → to_model d ≡ m
    next (err e) q h' = unfold read_model in cc
    next (ok reason) q h' =
        let same : domain_of m reason ≡ d = unfold read_model in cc in
        subst (λ x. to_model x ≡ m) same (written reason (reason_kept m.reason q))

-- The saga without the events that it had not published.
abbrev pub without_events : {Rate : Type 0} → Saga Rate → Saga Rate
without_events (refund_saga x) = refund_saga (record x { events = [] })
without_events (payout_saga x) = payout_saga (record x { events = [] })

-- A saga of either type is read back from its row as it was, but without the events that it had not
-- published.
pub saga_to_domain-saga_to_model :
    {Rate : Type 0} (x : Saga Rate) → saga_to_domain (saga_to_model x) ≡ ok (without_events x)
unfolding saga_to_domain saga_to_model
saga_to_domain-saga_to_model (refund_saga x) = refl
saga_to_domain-saga_to_model (payout_saga x) = refl
