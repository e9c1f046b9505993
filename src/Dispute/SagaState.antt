-- ===== src/Dispute/SagaState.antt =====
-- services/dispute-service/internal/domain/aggregate/saga_state.py: the two sagas that follow the
-- resolution of a dispute. A method returns the changed saga, or the exception that it raises.
pub mod Refund
pub mod Payout
