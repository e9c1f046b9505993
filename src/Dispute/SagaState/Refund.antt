-- ===== src/Dispute/SagaState/Refund.antt =====
-- `DisputeRefundSaga` of services/dispute-service/internal/domain/aggregate/saga_state.py.
use rent_a_girlfriend.Prelude.{
  ℕ, suc, String, Option, none, some, List, [], ◌∷◌, ◌++◌, Bool, true, false, is_some, ◌&&◌,
  if◌then◌else◌,
}
use rent_a_girlfriend.Dispute.Vo.{
  SagaState, refunding, hiding_review, dispute_resolved_refunded, dispute_failed, Result, ok, err,
  invalid_saga_transition,
}
use rent_a_girlfriend.Dispute.Events.{
  DomainEvent, saga_step_completed, saga_completed, saga_step_failed,
}

pub record DisputeRefundSaga : Type 0 where
  pub saga_id : String
  pub dispute_id : String
  pub booking_id : String
  pub current_state : SagaState
  pub retry_count : ℕ
  pub last_error : Option String
  pub version : ℕ
  pub events : List DomainEvent

abbrev pub is_refunding : SagaState → Bool
is_refunding refunding = true
is_refunding _ = false

abbrev pub is_hiding_review : SagaState → Bool
is_hiding_review hiding_review = true
is_hiding_review _ = false

abbrev pub is_completed : SagaState → Bool
is_completed dispute_resolved_refunded = true
is_completed _ = false

abbrev pub is_failed : SagaState → Bool
is_failed dispute_failed = true
is_failed _ = false

unfoldable pub needs_retry : DisputeRefundSaga → Bool
needs_retry x = is_hiding_review x.current_state && is_some x.last_error

unfoldable pub add_event : DomainEvent → DisputeRefundSaga → DisputeRefundSaga
add_event e x = record x { events = x.events ++ e ∷ [] }

-- The events, and the saga without them.
unfoldable pub clear_events : DisputeRefundSaga → List DomainEvent × DisputeRefundSaga
clear_events x = (x.events, record x { events = [] })

unfoldable pub create : String → String → String → DisputeRefundSaga
create saga_id dispute_id booking_id = record {
  saga_id = saga_id;
  dispute_id = dispute_id;
  booking_id = booking_id;
  current_state = refunding;
  retry_count = 0;
  last_error = none;
  version = 1;
  events = [];
}

unfoldable pub on_refund_success : DisputeRefundSaga → Result (DisputeRefundSaga)
unfolding add_event
on_refund_success x =
    if is_refunding x.current_state
    then ok (
        add_event (saga_step_completed x.saga_id x.dispute_id "REFUNDING")
          (record x { current_state = hiding_review; last_error = none }))
    else err (invalid_saga_transition x.saga_id x.current_state "refund_success")

unfoldable pub on_refund_failed : String → DisputeRefundSaga → Result (DisputeRefundSaga)
unfolding add_event
on_refund_failed error x =
    if is_refunding x.current_state
    then ok (
        add_event
          (saga_step_failed (record {
            saga_id = x.saga_id;
            dispute_id = x.dispute_id;
            step_name = "REFUNDING";
            error = error;
            retry_count = x.retry_count;
          }))
          (record x { current_state = dispute_failed; last_error = some error }))
    else err (invalid_saga_transition x.saga_id x.current_state "refund_failed")

unfoldable pub on_hide_review_success : DisputeRefundSaga → Result (DisputeRefundSaga)
unfolding add_event
on_hide_review_success x =
    if is_hiding_review x.current_state
    then ok (
        add_event (saga_completed x.saga_id x.dispute_id "REFUND")
          (record x { current_state = dispute_resolved_refunded; last_error = none }))
    else err (invalid_saga_transition x.saga_id x.current_state "hide_review_success")

-- The state stays, for the next retry.
unfoldable pub on_hide_review_failed : String → DisputeRefundSaga → Result (DisputeRefundSaga)
unfolding add_event
on_hide_review_failed error x =
    if is_hiding_review x.current_state
    then ok (
        add_event
          (saga_step_failed (record {
            saga_id = x.saga_id;
            dispute_id = x.dispute_id;
            step_name = "HIDING_REVIEW";
            error = error;
            retry_count = suc x.retry_count;
          }))
          (record x { retry_count = suc x.retry_count; last_error = some error }))
    else err (invalid_saga_transition x.saga_id x.current_state "hide_review_failed")
