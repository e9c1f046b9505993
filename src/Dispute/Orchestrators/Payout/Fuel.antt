-- ===== src/Dispute/Orchestrators/Payout/Fuel.antt =====
-- A call of `process_saga` for a payout saga calls itself at most once.
use rent_a_girlfriend.Prelude.{
  ℕ, suc, true, ◌≡◌, refl, ap, sym, ◌∙◌, Bool-cases, inl, inr, if◌then◌else◌,
}
use rent_a_girlfriend.Dispute.Vo.{Result}
use rent_a_girlfriend.Dispute.Action.{Action, pure, gets, ◌>>=◌, ◌>>◌}
use rent_a_girlfriend.Dispute.Action.Runs.{
  Runs, Runs-bind, Runs-same, bind_same, catch_same, if_same,
}
use rent_a_girlfriend.Dispute.SagaState.Payout.{
  DisputePayoutSaga, is_paying_out, is_locking_chat, on_payout_success,
}
use rent_a_girlfriend.Dispute.Orchestrators.{SagaSession, update}
use rent_a_girlfriend.Dispute.Orchestrators.Counting.{Paid, payments, update-Paid}
use rent_a_girlfriend.Dispute.Orchestrators.Payout.{
  Ports, process_saga, process_step, payout_step, lock_chat_step, save_saga, publish_events,
}
use rent_a_girlfriend.Dispute.Orchestrators.Payout.Calls.{
  Past, Any, payout_success-Past, payout_denied-Past, save_saga-Past,
}

module _ {Rate : Type 0} (env : Ports Rate) where
  -- What a call does on a saga in another state than that of the first step.
  abbrev after_first : Action (SagaSession (DisputePayoutSaga Rate)) Unit
  after_first = do
    state ← gets (λ s. s.object.current_state)
    if is_locking_chat state then lock_chat_step env else pure tt
    publish_events env

  -- After the first step, the recursive call is not made.
  past :
      (f : Action (SagaSession (DisputePayoutSaga Rate)) Unit)
      (s : SagaSession (DisputePayoutSaga Rate))
      → Past s.object
      → process_step env f s ≡ after_first s
  unfolding process_step gets ◌>>=◌
  past f s h =
      ap
        (λ b.
          ((if b
                then payout_step env f
                else if is_locking_chat s.object.current_state
                then lock_chat_step env
                else pure tt)
              >> publish_events env)
            s)
        h

  moves_on :
      (s : SagaSession (DisputePayoutSaga Rate))
      → Runs
          (update on_payout_success >> save_saga env)
          s
          (λ _. Paid (payments s) Past)
          (Paid (payments s) Past)
  moves_on s =
      Runs-bind _ _ (λ _. Paid (payments s) Past)
        (update-Paid Any on_payout_success Past Past (record { count = refl; is_so = tt })
          (λ x e. payout_success-Past s.object x e)
          (λ e h. payout_denied-Past s.object s.object e h))
        (λ _ s' p. save_saga-Past env p)

  step_same :
      (f g : Action (SagaSession (DisputePayoutSaga Rate)) Unit)
      (s : SagaSession (DisputePayoutSaga Rate))
      → ((s' : SagaSession (DisputePayoutSaga Rate)) → Past s'.object → f s' ≡ g s')
      → payout_step env f s ≡ payout_step env g s
  unfolding payout_step
  step_same f g s h = catch_same _ _ _ s (
      bind_same _ _ _ s λ x s₁. bind_same _ _ _ s₁ λ res s₂.
        if_same res.success _ _ _ s₂ (Runs-same _ f g (moves_on s₂) (λ s' p. h s' p.is_so)))

  first :
      (f g : Action (SagaSession (DisputePayoutSaga Rate)) Unit)
      (s : SagaSession (DisputePayoutSaga Rate))
      → is_paying_out s.object.current_state ≡ true
      → payout_step env f s ≡ payout_step env g s
      → process_step env f s ≡ process_step env g s
  first f g s h same = taken f ∙ ap published same ∙ sym (taken g)
    where
      published :
          Result Unit × SagaSession (DisputePayoutSaga Rate)
          → Result Unit × SagaSession (DisputePayoutSaga Rate)
      published p = ((λ _. p) >> publish_events env) s

      taken :
          (again : Action (SagaSession (DisputePayoutSaga Rate)) Unit)
          → process_step env again s ≡ published (payout_step env again s)
      taken again =
          unfold process_step gets ◌>>=◌ in
          ap
            (λ b.
              ((if b
                    then payout_step env again
                    else if is_locking_chat s.object.current_state
                    then lock_chat_step env
                    else pure tt)
                  >> publish_events env)
                s)
            h

  -- The call that the first step makes makes no further one.
  nested :
      (f g : Action (SagaSession (DisputePayoutSaga Rate)) Unit)
      (s : SagaSession (DisputePayoutSaga Rate))
      → process_step env (process_step env f) s ≡ process_step env (process_step env g) s
  nested f g s = elim (Bool-cases (is_paying_out s.object.current_state)) [
    | inl now ↦ first _ _ s now (step_same _ _ s (λ s' p. past f s' p ∙ sym (past g s' p)))
    | inr later ↦ past _ s later ∙ sym (past _ s later)
  ]

  -- From any state, a call of `process_saga` ends after at most one recursive call: whatever stands in
  -- the place of a second one, here `third`, a run on fuel of at least two is the call whose recursive
  -- call has `third` for its own. So the limit of the model is never reached.
  pub payout_saga_fuel :
      (n : ℕ) (third : Action (SagaSession (DisputePayoutSaga Rate)) Unit)
      (s : SagaSession (DisputePayoutSaga Rate))
      → process_saga env (suc (suc n)) s ≡ process_step env (process_step env third) s
  unfolding process_saga
  payout_saga_fuel n third s = nested (process_saga env n) third s
