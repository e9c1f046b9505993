-- ===== src/Dispute/Events.antt =====
-- services/dispute-service/internal/domain/events: the events, without their time.
use rent_a_girlfriend.Prelude.{ℕ, String}

-- The arguments of the three events of a resolution.
pub record Resolved : Type 0 where
  pub dispute_id : String
  pub booking_id : String
  pub admin_id : String
  pub reporter_id : String
  pub accused_id : String

pub record StepFailed : Type 0 where
  pub saga_id : String
  pub dispute_id : String
  pub step_name : String
  pub error : String
  pub retry_count : ℕ

pub data DomainEvent : Type 0 where
  -- dispute_id, booking_id, reporter_id, accused_id, reason
  report_created : String → String → String → String → String → DomainEvent
  -- dispute_id, admin_id
  dispute_assigned : String → String → DomainEvent
  dispute_resolved_refund dispute_resolved_payout dispute_rejected : Resolved → DomainEvent
  -- saga_id, dispute_id, and the step or the type of the saga
  saga_step_completed saga_completed : String → String → String → DomainEvent
  saga_step_failed : StepFailed → DomainEvent
