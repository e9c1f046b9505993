-- ===== src/Dispute/Orchestrators/Refund.antt =====
-- services/dispute-service/internal/application/saga/refund_saga.py. The ports, the repository and the
-- publisher are parameters of one run.
pub mod Calls
pub mod Fuel
use rent_a_girlfriend.Prelude.{
  List, [], ◌∷◌, ℕ, zero, suc, String, Option, none, some, Bool, if◌then◌else◌,
}
use mathlib.Core.Option
use rent_a_girlfriend.Dispute.Vo.{Error, Result, out_of_fuel}
use rent_a_girlfriend.Dispute.Events.{DomainEvent}
use rent_a_girlfriend.Dispute.Action.{Action, pure, raise, lift, gets, catch, modify, ◌>>=◌, ◌>>◌}
use rent_a_girlfriend.Dispute.SagaState.Refund
use rent_a_girlfriend.Dispute.SagaState.Refund.{
  DisputeRefundSaga, is_refunding, is_hiding_review, on_refund_success, on_refund_failed,
  on_hide_review_success, on_hide_review_failed,
}
use rent_a_girlfriend.Dispute.Orchestrators.{
  Call, refund_call, hide_call, SagaSession, PortResult, or_default, call, update, save,
  publish_all,
}

-- What the code outside the service answers during one run.
pub record Ports : Type 0 where
  pub refund_escrow_to_wallet : String → Result PortResult
  pub hide_review_and_lock_chat : String → Result Bool
  -- The version of the row after `session.merge` and `flush`, or `none` where these raise.
  pub merged_version : DisputeRefundSaga → Option ℕ
  pub encodes : DomainEvent → Bool
  -- `str(e)`
  pub show : Error → String

module _ (env : Ports) where
  unfoldable pub save_saga : Action (SagaSession DisputeRefundSaga) Unit
  save_saga = save (λ x. Option.map (λ v. record x { version = v }) (env.merged_version x))

  -- The end of `process_saga`.
  unfoldable pub publish_events : Action (SagaSession DisputeRefundSaga) Unit
  publish_events = do
    events ← gets (λ s. s.object.events)
    modify (λ s. record s { object = (Refund.clear_events s.object).1 })
    publish_all env.encodes events

  -- The first step, where `again` is the call of `process_saga` for the next one.
  unfoldable pub refund_step :
      Action (SagaSession DisputeRefundSaga) Unit → Action (SagaSession DisputeRefundSaga) Unit
  refund_step again =
      catch
        (do
          x ← gets (λ s. s.object)
          res ← call (refund_call x.booking_id) (env.refund_escrow_to_wallet x.booking_id)
          if res.success
              then (update on_refund_success >> save_saga) >> again
              else update (on_refund_failed (or_default res.error "Refund failed")) >> save_saga)
        (λ e. update (on_refund_failed (env.show e)) >> save_saga)

  -- The second step.
  unfoldable pub hide_review_step : Action (SagaSession DisputeRefundSaga) Unit
  hide_review_step =
      catch
        (do
          x ← gets (λ s. s.object)
          success ← call (hide_call x.booking_id) (env.hide_review_and_lock_chat x.booking_id)
          (if success
                then update on_hide_review_success
                else update (on_hide_review_failed "Interaction service failed to lock/hide"))
              >> save_saga)
        (λ e. update (on_hide_review_failed (env.show e)) >> save_saga)

  -- The body of `process_saga`, where `again` is its own call, for the next step.
  unfoldable pub process_step :
      Action (SagaSession DisputeRefundSaga) Unit → Action (SagaSession DisputeRefundSaga) Unit
  process_step again = do
    state ← gets (λ s. s.object.current_state)
    if is_refunding state
        then refund_step again
        else if is_hiding_review state
        then hide_review_step
        else pure tt
    publish_events

  -- On fuel: the first step calls `process_saga` once, for the second.
  unfoldable pub process_saga : ℕ → Action (SagaSession DisputeRefundSaga) Unit
  process_saga zero = raise out_of_fuel
  process_saga (suc n) = process_step (process_saga n)

  unfoldable pub start : ℕ → String → String → String → Action (SagaSession DisputeRefundSaga) Unit
  start n saga_id dispute_id booking_id = do
    modify (λ s. record s { object = Refund.create saga_id dispute_id booking_id })
    save_saga
    process_saga n

-- A run of each element, one after the other, on what the one before has left: the first run and the
-- retries of the worker, without its filter and its reload from the database.
unfoldable pub retries :
    ℕ → List Ports → SagaSession DisputeRefundSaga → SagaSession DisputeRefundSaga
retries k [] s = s
retries k (env ∷ envs) s = retries k envs (process_saga env k s).1
