-- ===== src/Dispute/Dtos.antt =====
-- The response bodies of services/dispute-service/internal/interfaces/http/router.py.
use rent_a_girlfriend.Prelude.{ℕ, String, Option, none, some, List, [], ◌∷◌}
use rent_a_girlfriend.Dispute.Vo.{DisputeStatus, SagaState}
use rent_a_girlfriend.Dispute.Aggregate.{Dispute, DisputeEvidence}
use rent_a_girlfriend.Dispute.Mappers.{Saga, refund_saga, payout_saga}

pub record EvidenceDto : Type 0 where
  pub evidence_id : String
  pub evidence_type : String
  pub content : String

pub record DisputeDto : Type 0 where
  pub dispute_id : String
  pub booking_id : String
  pub reporter_id : String
  pub accused_id : String
  pub reason : String
  pub status : DisputeStatus
  pub admin_id : Option String
  pub resolution : Option String
  pub notes : Option String
  pub version : ℕ
  pub evidences : List EvidenceDto

unfoldable pub evidence_dtos : List DisputeEvidence → List EvidenceDto
evidence_dtos [] = []
evidence_dtos (ev ∷ evs) =
    record { evidence_id = ev.evidence_id; evidence_type = ev.evidence_type; content = ev.content }
    ∷ evidence_dtos evs

unfoldable pub dispute_dto : Dispute → DisputeDto
unfolding evidence_dtos
dispute_dto domain = record {
  dispute_id = domain.dispute_id;
  booking_id = domain.booking_id;
  reporter_id = domain.reporter_id;
  accused_id = domain.accused_id;
  reason = domain.reason;
  status = domain.status;
  admin_id = domain.admin_id;
  resolution = domain.resolution;
  notes = domain.notes;
  version = domain.version;
  evidences = evidence_dtos domain.evidences;
}

pub record SagaStateDto : Type 0 where
  pub saga_id : String
  pub dispute_id : String
  pub booking_id : String
  pub saga_type : String
  pub current_state : SagaState
  pub retry_count : ℕ
  pub last_error : Option String
  pub version : ℕ

unfoldable pub saga_dto : {Rate : Type 0} → Saga Rate → SagaStateDto
saga_dto (refund_saga x) = record {
  saga_id = x.saga_id;
  dispute_id = x.dispute_id;
  booking_id = x.booking_id;
  saga_type = "REFUND";
  current_state = x.current_state;
  retry_count = x.retry_count;
  last_error = x.last_error;
  version = x.version;
}
saga_dto (payout_saga x) = record {
  saga_id = x.saga_id;
  dispute_id = x.dispute_id;
  booking_id = x.booking_id;
  saga_type = "PAYOUT";
  current_state = x.current_state;
  retry_count = x.retry_count;
  last_error = x.last_error;
  version = x.version;
}

abbrev pub optional_saga_dto : {Rate : Type 0} → Option (Saga Rate) → Option SagaStateDto
optional_saga_dto none = none
optional_saga_dto (some x) = some (saga_dto x)
