-- ===== src/Dispute/Commands/Effects.antt =====
-- What the commands of the dispute service leave in the session when they return.
use rent_a_girlfriend.Prelude.{
  ℕ, String, ◌≡◌, refl, sym, ap, ◌∙◌, subst, true, false, some, List, Memᴰ, ◌==◌, eq_iff,
}
use rent_a_girlfriend.Table.Rows.{upsert, NoClash}
use rent_a_girlfriend.Dispute.Vo.{DisputeStatus, refunded, paid_out, rejected, Result, ok, err}
use rent_a_girlfriend.Dispute.Events.{DomainEvent}
use rent_a_girlfriend.Dispute.Aggregate
use rent_a_girlfriend.Dispute.Aggregate.{
  Dispute, DisputeEvidence, is_terminal, allows, add_event, assert_not_terminal,
  assert_valid_transition, close,
}
use rent_a_girlfriend.Dispute.Aggregate.Lifecycle.{resolution_of, is_opened}
use rent_a_girlfriend.Dispute.Action.{Action, lift, ◌>>=◌}
use rent_a_girlfriend.Dispute.Action.Runs.{Runs-pure}
use rent_a_girlfriend.Dispute.Orchestrators.{SagaSession}
use rent_a_girlfriend.Dispute.Mappers.{DisputeModel, SagaStateModel, to_model, to_domain}
use rent_a_girlfriend.Dispute.Repositories.{Environment, Session, dispute_id, booking_id, save}
use rent_a_girlfriend.Dispute.Repositories.Rules.{
  Returns, Returns-lift, Returns-pure, Returns-assoc, Returns-save, Returns-skip, Returns-raise,
  Returns-if, Returns-last, Returns-ended, Returns-find_by_id, Returns-find_open_by_booking_id,
  NoneActive, Returns-publish_all, row_of,
}
use rent_a_girlfriend.Dispute.Commands.{
  EvidenceInput, run_saga, start_refund, start_payout, refuse_duplicate, create_report, found,
  settle, resolve_dispute,
}
use rent_a_girlfriend.Dispute.Commands.Decisions.{
  Reported, Settled, IsNew, create_report_ok, close-Settled, evidences_own,
}

module _ {Rate : Type 0} (env : Environment Rate) where
  Returns-run_saga :
      {S B : Type 0} {Q : B → Session Rate → Type 0} (row : S → SagaStateModel Rate) (x : S)
      (run : Action (SagaSession S) Unit) (f : Unit {0} → Action (Session Rate) B)
      (s : Session Rate)
      → ((s' : Session Rate) → s'.disputes ≡ s.disputes → Returns (f tt) s' Q)
      → Returns (run_saga env row x run >>= f) s Q
  unfolding run_saga ◌>>=◌
  Returns-run_saga {S} {B} {Q} row x run f s h = next (run _)
    where
      next : (p : Result Unit × SagaSession S) → Returns (run_saga env row x (λ _. p) >>= f) s Q
      next (ok a, t) = record { outcome = (h _ refl).outcome }
      next (err e, t) = record { outcome = tt }

  pub Returns-create_report :
      (k b r a reason : String) (evs : List EvidenceInput) (s : Session Rate)
      → Returns (create_report env k b r a reason evs) s (λ k' s'.
        (k' ≡ k)
        × Reported k b s.disputes s'.disputes
        × (s'.sagas ≡ s.sagas)
        × (s'.calls ≡ s.calls))
  unfolding create_report refuse_duplicate to_model
  Returns-create_report k b r a reason evs s =
      Returns-find_open_by_booking_id env b _ s
        (λ free. Returns-skip _ s (
          Returns-lift _ _ s λ d q.
            let new = create_report_ok k b r a reason _ d q in
            Returns-save env d _ s λ v clash.
              Returns-publish_all env d.events _ _
                (Runs-pure k (refl, reported d v s.disputes new free clash, refl, refl))))
        (λ d. Returns-raise _ _ s)
    where
      reported :
          (d : Dispute) (v : ℕ) (t : List DisputeModel)
          → IsNew k b d
          → NoneActive b t
          → NoClash dispute_id booking_id (row_of d v) t
          → Reported k b t (upsert dispute_id (row_of d v) t)
      reported d v t new free clash = record {
        row = row_of d v;
        named = new.id_is;
        of_booking = new.booking_is;
        is_open = new.status_is;
        sound = record {
          resolution = new.resolution_is ∙ ap resolution_of (sym new.status_is);
          handled = rw (new.admin_is, new.status_is) refl;
          reason = new.reason_is;
          own = evidences_own d.dispute_id d.evidences;
        };
        none_active = free;
        single = clash;
        stored = refl;
      }

module _ {Rate : Type 0} (env : Environment Rate) (k admin notes : String) (m : DisputeModel)
    (d : Dispute) (f : Dispute → Action (Session Rate) Unit) (s : Session Rate)
    (mem : Memᴰ m s.disputes) (named : m.dispute_id ≡ k) (rd : to_domain m ≡ ok d) where
  -- A branch of `resolve_dispute`: the dispute is closed and saved, and its saga started.
  Returns-branch :
      {Q : Unit {0} → Session Rate → Type 0} (target : DisputeStatus) (r : String) (e : DomainEvent)
      (tail : Dispute → Action (Session Rate) Dispute)
      → is_terminal target ≡ true
      → is_opened target ≡ false
      → resolution_of target ≡ some r
      → ((x : Dispute) (s₁ : Session Rate)
          → ((s₂ : Session Rate) → s₂.disputes ≡ s₁.disputes → Returns (f x) s₂ Q)
          → Returns (tail x >>= f) s₁ Q)
      → ((x : Dispute) (s₂ : Session Rate)
          → Settled k admin r s.disputes s₂.disputes
          → Returns (f x) s₂ Q)
      → Returns
          ((lift (close target r e admin notes d) >>= λ resolved. (save env resolved >>= tail))
            >>= f)
          s
          Q
  Returns-branch target r e tail t o q tail_runs h = Returns-assoc _ _ f s (
      Returns-lift _ _ s λ d' closed. Returns-assoc _ _ f s (
        Returns-save env d' _ s λ v clash. tail_runs _ _ λ s₂ same. h _ s₂ (
          subst (Settled k admin r s.disputes) (sym same) (
            close-Settled target k admin r notes e m d s.disputes t o q mem named rd d' closed v
              clash))))

  Returns-settle :
      (saga resolution : String)
      → ((d' : Dispute) (s' : Session Rate)
          → Settled k admin resolution s.disputes s'.disputes
          → Returns (f d') s' (λ _ s'. Settled k admin resolution s.disputes s'.disputes))
      → Returns
          (settle env saga k admin resolution notes d >>= f)
          s
          (λ _ s'. Settled k admin resolution s.disputes s'.disputes)
  unfolding settle start_refund start_payout Aggregate.resolve_refund Aggregate.resolve_payout
      Aggregate.reject
  Returns-settle saga resolution h =
      Returns-if (resolution == "REFUND_CLIENT") _ _ f s
        (λ is.
          Returns-branch refunded "REFUND_CLIENT" _ _ refl refl refl
            (λ x s₁ go.
              Returns-assoc _ _ f s₁
                (Returns-run_saga env _ _ _ _ s₁ (λ s₂ e. Returns-pure x f s₂ (go s₂ e))))
            (decided_as is))
        (λ _.
          Returns-if (resolution == "PAYOUT_COMPANION") _ _ f s
            (λ is.
              Returns-branch paid_out "PAYOUT_COMPANION" _ _ refl refl refl
                (λ x s₁ go.
                  Returns-assoc _ _ f s₁
                    (Returns-run_saga env _ _ _ _ s₁ (λ s₂ e. Returns-pure x f s₂ (go s₂ e))))
                (decided_as is))
            (λ _.
              Returns-if (resolution == "REJECT") _ _ f s
                (λ is.
                  Returns-branch rejected "REJECT" _ _ refl refl refl
                    (λ x s₁ go. Returns-pure x f s₁ (go s₁ refl)) (decided_as is))
                (λ _. Returns-raise _ f s)))
    where
      decided_as :
          {r : String}
          → (resolution == r) ≡ true
          → (x : Dispute) (s₂ : Session Rate) → Settled k admin r s.disputes s₂.disputes
          → Returns (f x) s₂ (λ _ s'. Settled k admin resolution s.disputes s'.disputes)
      decided_as {r} is x s₂ done = h x s₂ (
          subst (λ t. Settled k admin t s.disputes s₂.disputes) (sym ((eq_iff resolution r).0 is))
            done)

module _ {Rate : Type 0} (env : Environment Rate) where
  -- A resolution that returns has closed a dispute that was being resolved.
  pub Returns-resolve_dispute :
      (saga k admin resolution notes : String) (s : Session Rate)
      → Returns
          (resolve_dispute env saga k admin resolution notes)
          s
          (λ _ s'. Settled k admin resolution s.disputes s'.disputes)
  unfolding resolve_dispute
  Returns-resolve_dispute saga k admin resolution notes s =
      Returns-find_by_id env k _ s (unfold found in Returns-raise _ _ s) λ m d mem named rd.
        unfold found in
        Returns-pure d _ s (
          Returns-settle env k admin notes m d _ s mem named rd saga resolution λ d' s' done.
            Returns-last env (Settled k admin resolution s.disputes) d'.events s' done)

  -- A report that returns its new id: no dispute of the booking was open or being resolved, the
  -- reason is valid, and one open dispute of the booking is added, the only one of it; nothing else changes but the
  -- outbox.
  pub create_report_reports :
      (k b r a reason : String) (evs : List EvidenceInput) (s : Session Rate) {k' : String}
      {s' : Session Rate}
      → create_report env k b r a reason evs s ≡ (ok k', s')
      → (k' ≡ k) × Reported k b s.disputes s'.disputes × (s'.sagas ≡ s.sagas) × (s'.calls ≡ s.calls)
  create_report_reports k b r a reason evs s h =
      Returns-ended _ s (Returns-create_report env k b r a reason evs s) h

  -- A resolution that returns: the dispute was being resolved, and is stored as closed by that admin
  -- with that resolution and the status that goes with it; no other row changes.
  pub resolve_dispute_settles :
      (saga k admin resolution notes : String) (s : Session Rate) {s' : Session Rate}
      → resolve_dispute env saga k admin resolution notes s ≡ (ok tt, s')
      → Settled k admin resolution s.disputes s'.disputes
  resolve_dispute_settles saga k admin resolution notes s h =
      Returns-ended _ s (Returns-resolve_dispute saga k admin resolution notes s) h
