-- ===== src/Dispute/SagaState/Payout.antt =====
-- `DisputePayoutSaga` of services/dispute-service/internal/domain/aggregate/saga_state.py.
use rent_a_girlfriend.Prelude.{
  ℕ, suc, String, Option, none, some, List, [], ◌∷◌, ◌++◌, Bool, true, false, is_some, ◌&&◌,
  if◌then◌else◌,
}
use rent_a_girlfriend.Dispute.Vo.{
  SagaState, paying_out, locking_chat, dispute_resolved_paid_out, dispute_failed, Result, ok, err,
  invalid_saga_transition,
}
use rent_a_girlfriend.Dispute.Events.{
  DomainEvent, saga_step_completed, saga_completed, saga_step_failed,
}

pub record DisputePayoutSaga (Rate : Type 0) : Type 0 where
  pub saga_id : String
  pub dispute_id : String
  pub booking_id : String
  pub companion_wallet_id : Option String
  -- A float.
  pub commission_rate : Option Rate
  pub current_state : SagaState
  pub retry_count : ℕ
  pub last_error : Option String
  pub version : ℕ
  pub events : List DomainEvent

abbrev pub is_paying_out : SagaState → Bool
is_paying_out paying_out = true
is_paying_out _ = false

abbrev pub is_locking_chat : SagaState → Bool
is_locking_chat locking_chat = true
is_locking_chat _ = false

abbrev pub is_completed : SagaState → Bool
is_completed dispute_resolved_paid_out = true
is_completed _ = false

abbrev pub is_failed : SagaState → Bool
is_failed dispute_failed = true
is_failed _ = false

module _ {Rate : Type 0} where
  unfoldable pub needs_retry : DisputePayoutSaga Rate → Bool
  needs_retry x = is_locking_chat x.current_state && is_some x.last_error

  unfoldable pub add_event : DomainEvent → DisputePayoutSaga Rate → DisputePayoutSaga Rate
  add_event e x = record x { events = x.events ++ e ∷ [] }

  -- The events, and the saga without them.
  unfoldable pub clear_events : DisputePayoutSaga Rate → List DomainEvent × DisputePayoutSaga Rate
  clear_events x = (x.events, record x { events = [] })

  unfoldable pub create : String → String → String → String → Rate → DisputePayoutSaga Rate
  create saga_id dispute_id booking_id companion_wallet_id commission_rate = record {
    saga_id = saga_id;
    dispute_id = dispute_id;
    booking_id = booking_id;
    companion_wallet_id = some companion_wallet_id;
    commission_rate = some commission_rate;
    current_state = paying_out;
    retry_count = 0;
    last_error = none;
    version = 1;
    events = [];
  }

  unfoldable pub on_payout_success : DisputePayoutSaga Rate → Result (DisputePayoutSaga Rate)
  unfolding add_event
  on_payout_success x =
      if is_paying_out x.current_state
      then ok (
          add_event (saga_step_completed x.saga_id x.dispute_id "PAYING_OUT")
            (record x { current_state = locking_chat; last_error = none }))
      else err (invalid_saga_transition x.saga_id x.current_state "payout_success")

  unfoldable pub on_payout_failed :
      String → DisputePayoutSaga Rate → Result (DisputePayoutSaga Rate)
  unfolding add_event
  on_payout_failed error x =
      if is_paying_out x.current_state
      then ok (
          add_event
            (saga_step_failed (record {
              saga_id = x.saga_id;
              dispute_id = x.dispute_id;
              step_name = "PAYING_OUT";
              error = error;
              retry_count = x.retry_count;
            }))
            (record x { current_state = dispute_failed; last_error = some error }))
      else err (invalid_saga_transition x.saga_id x.current_state "payout_failed")

  unfoldable pub on_lock_chat_success : DisputePayoutSaga Rate → Result (DisputePayoutSaga Rate)
  unfolding add_event
  on_lock_chat_success x =
      if is_locking_chat x.current_state
      then ok (
          add_event (saga_completed x.saga_id x.dispute_id "PAYOUT")
            (record x { current_state = dispute_resolved_paid_out; last_error = none }))
      else err (invalid_saga_transition x.saga_id x.current_state "lock_chat_success")

  -- The state stays, for the next retry.
  unfoldable pub on_lock_chat_failed :
      String → DisputePayoutSaga Rate → Result (DisputePayoutSaga Rate)
  unfolding add_event
  on_lock_chat_failed error x =
      if is_locking_chat x.current_state
      then ok (
          add_event
            (saga_step_failed (record {
              saga_id = x.saga_id;
              dispute_id = x.dispute_id;
              step_name = "LOCKING_CHAT";
              error = error;
              retry_count = suc x.retry_count;
            }))
            (record x { retry_count = suc x.retry_count; last_error = some error }))
      else err (invalid_saga_transition x.saga_id x.current_state "lock_chat_failed")
