-- ===== src/Dispute/Vo.antt =====
-- services/dispute-service/internal/domain/vo/dispute_reason.py and domain/errors: the reasons of a
-- dispute, the states, and the exceptions.
use rent_a_girlfriend.Prelude.{String, ◌==◌, ◌||◌, if◌then◌else◌}

-- The `status` strings; `other` is any that the service does not write.
pub data DisputeStatus : Type 0 where
  opened resolving refunded paid_out rejected : DisputeStatus
  other : String → DisputeStatus

-- The `current_state` strings of both sagas.
pub data SagaState : Type 0 where
  refunding hiding_review dispute_resolved_refunded : SagaState
  paying_out locking_chat dispute_resolved_paid_out dispute_failed : SagaState
  other_state : String → SagaState

-- The exceptions of domain/errors, then those of the code that the service calls.
pub data Error : Type 0 where
  dispute_not_found duplicate_open_dispute : String → Error
  dispute_already_resolved : String → DisputeStatus → Error
  invalid_dispute_status_transition : DisputeStatus → DisputeStatus → Error
  invalid_saga_transition : String → SagaState → String → Error
  invalid_dispute_reason invalid_resolution : String → Error
  port_error unknown_saga_type : String → Error
  database_error encode_error : Error
  -- Only in the model: the recursion has used up its fuel.
  out_of_fuel : Error

pub data Result (A : Type 0) : Type 0 where
  ok : A → Result A
  err : Error → Result A

-- `DisputeReason(value)`
unfoldable pub dispute_reason : String → Result String
dispute_reason value =
    if value == "NO_SHOW" || value == "MISCONDUCT" || value == "FRAUD" || value == "OTHER"
    then ok value
    else err (invalid_dispute_reason value)
