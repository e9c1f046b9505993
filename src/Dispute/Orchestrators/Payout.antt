-- ===== src/Dispute/Orchestrators/Payout.antt =====
-- services/dispute-service/internal/application/saga/payout_saga.py. The ports, the repository and the
-- publisher are parameters of one run.
pub mod Calls
pub mod Fuel
use rent_a_girlfriend.Prelude.{
  List, [], ◌∷◌, ℕ, zero, suc, String, Option, none, some, Bool, if◌then◌else◌,
}
use mathlib.Core.Option
use rent_a_girlfriend.Dispute.Vo.{Error, Result, out_of_fuel}
use rent_a_girlfriend.Dispute.Events.{DomainEvent}
use rent_a_girlfriend.Dispute.Action.{Action, pure, raise, lift, gets, catch, modify, ◌>>=◌, ◌>>◌}
use rent_a_girlfriend.Dispute.SagaState.Payout
use rent_a_girlfriend.Dispute.SagaState.Payout.{
  DisputePayoutSaga, is_paying_out, is_locking_chat, on_payout_success, on_payout_failed,
  on_lock_chat_success, on_lock_chat_failed,
}
use rent_a_girlfriend.Dispute.Orchestrators.{
  Call, payout_call, lock_call, SagaSession, PortResult, or_default, call, update, save,
  publish_all,
}

-- What the code outside the service answers during one run.
pub record Ports (Rate : Type 0) : Type 0 where
  pub payout_from_escrow : String → Option String → Option Rate → Result PortResult
  pub lock_chat_room : String → Result Bool
  pub get_payout_snapshot : String → Result (String × Rate)
  -- The version of the row after `session.merge` and `flush`, or `none` where these raise.
  pub merged_version : DisputePayoutSaga Rate → Option ℕ
  pub encodes : DomainEvent → Bool
  -- `str(e)`
  pub show : Error → String

module _ {Rate : Type 0} (env : Ports Rate) where
  unfoldable pub save_saga : Action (SagaSession (DisputePayoutSaga Rate)) Unit
  save_saga = save (λ x. Option.map (λ v. record x { version = v }) (env.merged_version x))

  -- The end of `process_saga`.
  unfoldable pub publish_events : Action (SagaSession (DisputePayoutSaga Rate)) Unit
  publish_events = do
    events ← gets (λ s. s.object.events)
    modify (λ s. record s { object = (Payout.clear_events s.object).1 })
    publish_all env.encodes events

  -- The first step, where `again` is the call of `process_saga` for the next one.
  unfoldable pub payout_step :
      Action (SagaSession (DisputePayoutSaga Rate)) Unit
      → Action (SagaSession (DisputePayoutSaga Rate)) Unit
  payout_step again =
      catch
        (do
          x ← gets (λ s. s.object)
          res ←
              call (payout_call x.booking_id)
                (env.payout_from_escrow x.booking_id x.companion_wallet_id x.commission_rate)
          if res.success
              then (update on_payout_success >> save_saga) >> again
              else update (on_payout_failed (or_default res.error "Payout failed")) >> save_saga)
        (λ e. update (on_payout_failed (env.show e)) >> save_saga)

  -- The second step.
  unfoldable pub lock_chat_step : Action (SagaSession (DisputePayoutSaga Rate)) Unit
  lock_chat_step =
      catch
        (do
          x ← gets (λ s. s.object)
          success ← call (lock_call x.booking_id) (env.lock_chat_room x.booking_id)
          (if success
                then update on_lock_chat_success
                else update (on_lock_chat_failed "Interaction service failed to lock chat room"))
              >> save_saga)
        (λ e. update (on_lock_chat_failed (env.show e)) >> save_saga)

  -- The body of `process_saga`, where `again` is its own call, for the next step.
  unfoldable pub process_step :
      Action (SagaSession (DisputePayoutSaga Rate)) Unit
      → Action (SagaSession (DisputePayoutSaga Rate)) Unit
  process_step again = do
    state ← gets (λ s. s.object.current_state)
    if is_paying_out state
        then payout_step again
        else if is_locking_chat state
        then lock_chat_step
        else pure tt
    publish_events

  -- On fuel: the first step calls `process_saga` once, for the second.
  unfoldable pub process_saga : ℕ → Action (SagaSession (DisputePayoutSaga Rate)) Unit
  process_saga zero = raise out_of_fuel
  process_saga (suc n) = process_step (process_saga n)

  unfoldable pub start :
      ℕ → String → String → String → Action (SagaSession (DisputePayoutSaga Rate)) Unit
  start n saga_id dispute_id booking_id = do
    snapshot ← lift (env.get_payout_snapshot booking_id)
    modify (λ s. record s {
      object = Payout.create saga_id dispute_id booking_id snapshot.0 snapshot.1;
    })
    save_saga
    process_saga n

-- A run of each element, one after the other, on what the one before has left: the first run and the
-- retries of the worker, without its filter and its reload from the database.
unfoldable pub retries :
    {Rate : Type 0}
    → ℕ
    → List (Ports Rate)
    → SagaSession (DisputePayoutSaga Rate)
    → SagaSession (DisputePayoutSaga Rate)
retries k [] s = s
retries k (env ∷ envs) s = retries k envs (process_saga env k s).1
