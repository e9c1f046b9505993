-- ===== src/Dispute/Orchestrators/Payout/Calls.antt =====
-- How often one run of the payout orchestrator orders a payout.
use mathlib.Core.Option.{some-injective}
use rent_a_girlfriend.Prelude.{
  ℕ, zero, suc, ◌+◌, String, Option, none, some, false, ◌≡◌, ap, sym, ◌∙◌, arith, false≢true,
}
use mathlib.Core.Option
use rent_a_girlfriend.Dispute.Vo.{Error, ok, err}
use rent_a_girlfriend.Dispute.Action.{Action}
use rent_a_girlfriend.Dispute.Action.Runs.{
  Runs, Leaves, Runs-bind, Runs-modify, Runs-pure, Runs-raise, Runs-if, Runs-catch, Runs-gets_bind,
  Runs-weaken,
}
use rent_a_girlfriend.Dispute.SagaState.Payout.{
  DisputePayoutSaga, is_paying_out, on_payout_success, on_lock_chat_success, on_lock_chat_failed,
  add_event, clear_events,
}
use rent_a_girlfriend.Dispute.Orchestrators.{SagaSession}
use rent_a_girlfriend.Dispute.Orchestrators.Counting.{
  Paid, call-Paid, update-Paid, save-Paid, publish_all-Paid,
}
use rent_a_girlfriend.Dispute.Orchestrators.Payout.{
  Ports, process_saga, process_step, lock_chat_step, save_saga, publish_events,
}

-- After the first step.
abbrev pub Past : {Rate : Type 0} → DisputePayoutSaga Rate → Type 0
Past x = is_paying_out x.current_state ≡ false

abbrev pub Any : {Rate : Type 0} → DisputePayoutSaga Rate → Type 0
Any x = Unit

module _ {Rate : Type 0} (x y : DisputePayoutSaga Rate) where
  pub payout_success-Past : on_payout_success x ≡ ok y → Past y
  unfolding on_payout_success add_event
  payout_success-Past h = ground arith

  pub payout_denied-Past : (e : Error) → on_payout_success x ≡ err e → Past x
  unfolding on_payout_success add_event
  payout_denied-Past e h = ground arith

  lock_chat_success-Past : on_lock_chat_success x ≡ ok y → Past y
  unfolding on_lock_chat_success add_event
  lock_chat_success-Past h = ground arith

  lock_chat_failed-Past : (m : String) → on_lock_chat_failed m x ≡ ok y → Past x → Past y
  unfolding on_lock_chat_failed add_event
  lock_chat_failed-Past m h p = ground arith

module _ {Rate : Type 0} (env : Ports Rate) {n : ℕ} where
  pub save_saga-Past :
      {s : SagaSession (DisputePayoutSaga Rate)}
      → Paid n Past s
      → Leaves (save_saga env) s (Paid n Past)
  unfolding save_saga
  save_saga-Past p = save-Paid Past _ (λ x y e h. versioned x y (env.merged_version x) e h) p
    where
      versioned :
          (x y : DisputePayoutSaga Rate) (o : Option ℕ)
          → Option.map (λ v. record x { version = v }) o ≡ some y
          → Past x
          → Past y
      versioned x y none e h = cc
      versioned x y (some v) e h =
          sym (ap (λ z. is_paying_out z.current_state) (some-injective _ _ e)) ∙ h

  publish_events-Past :
      {s : SagaSession (DisputePayoutSaga Rate)}
      → Paid n Past s
      → Leaves (publish_events env) s (Paid n Past)
  unfolding publish_events clear_events
  publish_events-Past p = Runs-gets_bind _ _ (
      Runs-bind _ _ (λ _. Paid n Past) (Runs-modify _ (record { count = p.count; is_so = p.is_so }))
        (λ _ s' p'. publish_all-Paid Past env.encodes _ p'))

  lock_chat_step-Past :
      {s : SagaSession (DisputePayoutSaga Rate)}
      → Paid n Past s
      → Leaves (lock_chat_step env) s (Paid n Past)
  unfolding lock_chat_step
  lock_chat_step-Past p =
      Runs-catch _ _ (Paid n Past)
        (Runs-gets_bind _ _ (
          Runs-bind _ _ (λ _. Paid n Past) (no_payment (call-Paid Past _ _ p))
            λ b s₁ p₁.
              Runs-bind _ _ (λ _. Paid n Past)
                (Runs-if b _ _
                  (λ _.
                    update-Paid Past _ Past Past p₁ (λ x e. lock_chat_success-Past s₁.object x e)
                      (λ _ _. p₁.is_so))
                  (λ _.
                    update-Paid Past _ Past Past p₁
                      (λ x e. lock_chat_failed-Past s₁.object x _ e p₁.is_so) (λ _ _. p₁.is_so)))
                (λ _ s₂ p₂. save_saga-Past p₂)))
        (λ e s₁ p₁.
          Runs-bind _ _ (λ _. Paid n Past)
            (update-Paid Past _ Past Past p₁ (λ x q. lock_chat_failed-Past s₁.object x _ q p₁.is_so)
              (λ _ _. p₁.is_so))
            (λ _ s₂ p₂. save_saga-Past p₂))
    where
      no_payment :
          {A : Type 0} {m : Action (SagaSession (DisputePayoutSaga Rate)) A}
          {s : SagaSession (DisputePayoutSaga Rate)}
          → Leaves m s (Paid (n + 0) Past)
          → Leaves m s (Paid n Past)
      no_payment r =
          Runs-weaken r (λ _ s' q. record { count = omega (arith, q.count); is_so = q.is_so })
            (λ s' q. record { count = omega (arith, q.count); is_so = q.is_so })

  -- A run past the first step orders no payout.
  pub process_saga-Past :
      (k : ℕ) {s : SagaSession (DisputePayoutSaga Rate)}
      → Paid n Past s
      → Leaves (process_saga env k) s (Paid n Past)
  unfolding process_saga process_step
  process_saga-Past zero p = Runs-raise _ p
  process_saga-Past (suc k) {s} p = Runs-gets_bind _ _ (
      Runs-bind _ _ (λ _. Paid n Past)
        (Runs-if _ _ _ (λ t. absurd (false≢true (sym p.is_so ∙ t)))
          (λ _. Runs-if _ _ _ (λ _. lock_chat_step-Past p) (λ _. Runs-pure _ p)))
        (λ _ s₁ p₁. publish_events-Past p₁))
