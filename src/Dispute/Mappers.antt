-- ===== src/Dispute/Mappers.antt =====
-- services/dispute-service/internal/infrastructure/persistence/models.py and infrastructure/mappers:
-- the rows of the dispute database, and the messages of the outbox, without their times.
pub mod RoundTrips
use rent_a_girlfriend.Prelude.{ℕ, String, Option, none, some, List, [], ◌∷◌, ◌==◌, if◌then◌else◌}
use rent_a_girlfriend.Dispute.Vo.{
  DisputeStatus, SagaState, Result, ok, err, dispute_reason, unknown_saga_type,
}
use rent_a_girlfriend.Dispute.Events.{
  DomainEvent, report_created, dispute_assigned, dispute_resolved_refund, dispute_resolved_payout,
  dispute_rejected, saga_step_completed, saga_completed, saga_step_failed, Resolved,
}
use rent_a_girlfriend.Dispute.Aggregate.{Dispute, DisputeEvidence}
use rent_a_girlfriend.Dispute.SagaState.Refund.{DisputeRefundSaga}
use rent_a_girlfriend.Dispute.SagaState.Payout.{DisputePayoutSaga}

pub record DisputeEvidenceModel : Type 0 where
  pub evidence_id : String
  pub dispute_id : String
  pub evidence_type : String
  pub content : String

pub record DisputeModel : Type 0 where
  pub dispute_id : String
  pub booking_id : String
  pub reporter_id : String
  pub accused_id : String
  pub reason : String
  pub status : DisputeStatus
  pub admin_id : Option String
  pub resolution : Option String
  pub notes : Option String
  pub version : ℕ
  pub evidences : List DisputeEvidenceModel

pub record SagaStateModel (Rate : Type 0) : Type 0 where
  pub saga_id : String
  pub dispute_id : String
  pub booking_id : String
  pub saga_type : String
  pub current_state : SagaState
  pub retry_count : ℕ
  pub last_error : Option String
  pub companion_wallet_id : Option String
  pub commission_rate : Option Rate
  pub version : ℕ

unfoldable pub evidence_to_model : String → DisputeEvidence → DisputeEvidenceModel
evidence_to_model dispute_id ev = record {
  evidence_id = ev.evidence_id;
  dispute_id = dispute_id;
  evidence_type = ev.evidence_type;
  content = ev.content;
}

unfoldable pub evidence_to_domain : DisputeEvidenceModel → DisputeEvidence
evidence_to_domain ev = record {
  evidence_id = ev.evidence_id;
  evidence_type = ev.evidence_type;
  content = ev.content;
}

unfoldable pub evidences_to_model : String → List DisputeEvidence → List DisputeEvidenceModel
unfolding evidence_to_model
evidences_to_model dispute_id [] = []
evidences_to_model dispute_id (ev ∷ evs) =
    evidence_to_model dispute_id ev ∷ evidences_to_model dispute_id evs

unfoldable pub evidences_to_domain : List DisputeEvidenceModel → List DisputeEvidence
unfolding evidence_to_domain
evidences_to_domain [] = []
evidences_to_domain (ev ∷ evs) = evidence_to_domain ev ∷ evidences_to_domain evs

-- `DisputeMapper.to_model`
unfoldable pub to_model : Dispute → DisputeModel
unfolding evidences_to_model
to_model domain = record {
  dispute_id = domain.dispute_id;
  booking_id = domain.booking_id;
  reporter_id = domain.reporter_id;
  accused_id = domain.accused_id;
  reason = domain.reason;
  status = domain.status;
  admin_id = domain.admin_id;
  resolution = domain.resolution;
  notes = domain.notes;
  version = domain.version;
  evidences = evidences_to_model domain.dispute_id domain.evidences;
}

-- The dispute of a row with a valid reason.
unfoldable pub domain_of : DisputeModel → String → Dispute
unfolding evidences_to_domain
domain_of model reason = record {
  dispute_id = model.dispute_id;
  booking_id = model.booking_id;
  reporter_id = model.reporter_id;
  accused_id = model.accused_id;
  reason = reason;
  status = model.status;
  admin_id = model.admin_id;
  resolution = model.resolution;
  notes = model.notes;
  evidences = evidences_to_domain model.evidences;
  version = model.version;
  events = [];
}

-- The dispute, if `DisputeReason` accepts the reason.
unfoldable pub read_model : DisputeModel → Result String → Result Dispute
unfolding domain_of
read_model model (ok reason) = ok (domain_of model reason)
read_model model (err e) = err e

-- `DisputeMapper.to_domain`
unfoldable pub to_domain : DisputeModel → Result Dispute
unfolding read_model
to_domain model = read_model model (dispute_reason model.reason)

-- The sagas of both types, as `SagaStateMapper` tells them apart.
pub data Saga (Rate : Type 0) : Type 0 where
  refund_saga : DisputeRefundSaga → Saga Rate
  payout_saga : DisputePayoutSaga Rate → Saga Rate

module _ {Rate : Type 0} where
  -- `SagaStateMapper.to_model`
  unfoldable pub saga_to_model : Saga Rate → SagaStateModel Rate
  saga_to_model (refund_saga domain) = record {
    saga_id = domain.saga_id;
    dispute_id = domain.dispute_id;
    booking_id = domain.booking_id;
    saga_type = "REFUND";
    current_state = domain.current_state;
    retry_count = domain.retry_count;
    last_error = domain.last_error;
    companion_wallet_id = none;
    commission_rate = none;
    version = domain.version;
  }
  saga_to_model (payout_saga domain) = record {
    saga_id = domain.saga_id;
    dispute_id = domain.dispute_id;
    booking_id = domain.booking_id;
    saga_type = "PAYOUT";
    current_state = domain.current_state;
    retry_count = domain.retry_count;
    last_error = domain.last_error;
    companion_wallet_id = domain.companion_wallet_id;
    commission_rate = domain.commission_rate;
    version = domain.version;
  }

  -- `SagaStateMapper.to_domain`
  unfoldable pub saga_to_domain : SagaStateModel Rate → Result (Saga Rate)
  saga_to_domain model =
      if model.saga_type == "REFUND"
      then ok (
          refund_saga (record {
            saga_id = model.saga_id;
            dispute_id = model.dispute_id;
            booking_id = model.booking_id;
            current_state = model.current_state;
            retry_count = model.retry_count;
            last_error = model.last_error;
            version = model.version;
            events = [];
          }))
      else if model.saga_type == "PAYOUT"
      then ok (
          payout_saga (record {
            saga_id = model.saga_id;
            dispute_id = model.dispute_id;
            booking_id = model.booking_id;
            companion_wallet_id = model.companion_wallet_id;
            commission_rate = model.commission_rate;
            current_state = model.current_state;
            retry_count = model.retry_count;
            last_error = model.last_error;
            version = model.version;
            events = [];
          }))
      else err (unknown_saga_type model.saga_type)

pub record DisputeResolved : Type 0 where
  pub dispute_id : String
  pub booking_id : String
  pub resolution : String
  pub resolved_by : String
  pub reporter_id : String
  pub accused_id : String

-- The protobuf messages, by the names of their descriptors.
pub data ProtoMessage : Type 0 where
  -- dispute_id, booking_id, reporter_id, reason
  dispute_created : String → String → String → String → ProtoMessage
  dispute_resolved : DisputeResolved → ProtoMessage

unfoldable pub resolved_message : String → Resolved → ProtoMessage
resolved_message resolution e = dispute_resolved (record {
  dispute_id = e.dispute_id;
  booking_id = e.booking_id;
  resolution = resolution;
  resolved_by = e.admin_id;
  reporter_id = e.reporter_id;
  accused_id = e.accused_id;
})

-- `EventMapper.to_protobuf`; `none` where it raises.
unfoldable pub to_protobuf : DomainEvent → Option ProtoMessage
unfolding resolved_message
to_protobuf (report_created dispute_id booking_id reporter_id accused_id reason) =
    some (dispute_created dispute_id booking_id reporter_id reason)
to_protobuf (dispute_resolved_refund e) = some (resolved_message "REFUND_CLIENT" e)
to_protobuf (dispute_resolved_payout e) = some (resolved_message "PAYOUT_COMPANION" e)
to_protobuf (dispute_rejected e) = some (resolved_message "REJECT" e)
to_protobuf (dispute_assigned dispute_id admin_id) = none
to_protobuf (saga_step_completed saga_id dispute_id step) = none
to_protobuf (saga_completed saga_id dispute_id type) = none
to_protobuf (saga_step_failed e) = none
