-- ===== src/Dispute/Orchestrators/Refund/Fuel.antt =====
-- A call of `process_saga` for a refund saga calls itself at most once.
use rent_a_girlfriend.Prelude.{
  ℕ, suc, true, ◌≡◌, refl, ap, sym, ◌∙◌, Bool-cases, inl, inr, if◌then◌else◌,
}
use rent_a_girlfriend.Dispute.Vo.{Result}
use rent_a_girlfriend.Dispute.Action.{Action, pure, gets, ◌>>=◌, ◌>>◌}
use rent_a_girlfriend.Dispute.Action.Runs.{
  Runs, Runs-bind, Runs-same, bind_same, catch_same, if_same,
}
use rent_a_girlfriend.Dispute.SagaState.Refund.{
  DisputeRefundSaga, is_refunding, is_hiding_review, on_refund_success,
}
use rent_a_girlfriend.Dispute.Orchestrators.{SagaSession, update}
use rent_a_girlfriend.Dispute.Orchestrators.Counting.{Paid, payments, update-Paid}
use rent_a_girlfriend.Dispute.Orchestrators.Refund.{
  Ports, process_saga, process_step, refund_step, hide_review_step, save_saga, publish_events,
}
use rent_a_girlfriend.Dispute.Orchestrators.Refund.Calls.{
  Past, Any, refund_success-Past, refund_denied-Past, save_saga-Past,
}

module _ (env : Ports) where
  -- What a call does on a saga in another state than that of the first step.
  abbrev after_first : Action (SagaSession DisputeRefundSaga) Unit
  after_first = do
    state ← gets (λ s. s.object.current_state)
    if is_hiding_review state then hide_review_step env else pure tt
    publish_events env

  -- After the first step, the recursive call is not made.
  past :
      (f : Action (SagaSession DisputeRefundSaga) Unit) (s : SagaSession DisputeRefundSaga)
      → Past s.object
      → process_step env f s ≡ after_first s
  unfolding process_step gets ◌>>=◌
  past f s h =
      ap
        (λ b.
          ((if b
                then refund_step env f
                else if is_hiding_review s.object.current_state
                then hide_review_step env
                else pure tt)
              >> publish_events env)
            s)
        h

  moves_on :
      (s : SagaSession DisputeRefundSaga)
      → Runs
          (update on_refund_success >> save_saga env)
          s
          (λ _. Paid (payments s) Past)
          (Paid (payments s) Past)
  moves_on s =
      Runs-bind _ _ (λ _. Paid (payments s) Past)
        (update-Paid Any on_refund_success Past Past (record { count = refl; is_so = tt })
          (λ x e. refund_success-Past s.object x e)
          (λ e h. refund_denied-Past s.object s.object e h))
        (λ _ s' p. save_saga-Past env p)

  step_same :
      (f g : Action (SagaSession DisputeRefundSaga) Unit) (s : SagaSession DisputeRefundSaga)
      → ((s' : SagaSession DisputeRefundSaga) → Past s'.object → f s' ≡ g s')
      → refund_step env f s ≡ refund_step env g s
  unfolding refund_step
  step_same f g s h = catch_same _ _ _ s (
      bind_same _ _ _ s λ x s₁. bind_same _ _ _ s₁ λ res s₂.
        if_same res.success _ _ _ s₂ (Runs-same _ f g (moves_on s₂) (λ s' p. h s' p.is_so)))

  first :
      (f g : Action (SagaSession DisputeRefundSaga) Unit) (s : SagaSession DisputeRefundSaga)
      → is_refunding s.object.current_state ≡ true
      → refund_step env f s ≡ refund_step env g s
      → process_step env f s ≡ process_step env g s
  first f g s h same = taken f ∙ ap published same ∙ sym (taken g)
    where
      published :
          Result Unit × SagaSession DisputeRefundSaga → Result Unit × SagaSession DisputeRefundSaga
      published p = ((λ _. p) >> publish_events env) s

      taken :
          (again : Action (SagaSession DisputeRefundSaga) Unit)
          → process_step env again s ≡ published (refund_step env again s)
      taken again =
          unfold process_step gets ◌>>=◌ in
          ap
            (λ b.
              ((if b
                    then refund_step env again
                    else if is_hiding_review s.object.current_state
                    then hide_review_step env
                    else pure tt)
                  >> publish_events env)
                s)
            h

  -- The call that the first step makes makes no further one.
  nested :
      (f g : Action (SagaSession DisputeRefundSaga) Unit) (s : SagaSession DisputeRefundSaga)
      → process_step env (process_step env f) s ≡ process_step env (process_step env g) s
  nested f g s = elim (Bool-cases (is_refunding s.object.current_state)) [
    | inl now ↦ first _ _ s now (step_same _ _ s (λ s' p. past f s' p ∙ sym (past g s' p)))
    | inr later ↦ past _ s later ∙ sym (past _ s later)
  ]

  -- From any state, a call of `process_saga` ends after at most one recursive call: whatever stands in
  -- the place of a second one, here `third`, a run on fuel of at least two is the call whose recursive
  -- call has `third` for its own. So the limit of the model is never reached.
  pub refund_saga_fuel :
      (n : ℕ) (third : Action (SagaSession DisputeRefundSaga) Unit)
      (s : SagaSession DisputeRefundSaga)
      → process_saga env (suc (suc n)) s ≡ process_step env (process_step env third) s
  unfolding process_saga
  refund_saga_fuel n third s = nested (process_saga env n) third s
