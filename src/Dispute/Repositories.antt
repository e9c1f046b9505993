-- ===== src/Dispute/Repositories.antt =====
-- services/dispute-service/internal/infrastructure/persistence/repositories.py,
-- infrastructure/broker/event_publisher.py and application/query/dispute.py. The tables, the
-- encoding of messages and the answers of the other services are the fields of `Environment`.
pub mod Rules
use rent_a_girlfriend.Prelude.{
  ℕ, String, Option, none, some, List, [], ◌∷◌, ◌++◌, Bool, true, false, is_some, ◌&&◌, ◌==◌,
  if◌then◌else◌,
}
use rent_a_girlfriend.Table.{Table}
use rent_a_girlfriend.Dispute.Vo.{
  Error, DisputeStatus, SagaState, opened, resolving, refunded, paid_out, rejected, other,
  hiding_review, locking_chat, ok, err, database_error, encode_error, dispute_not_found,
}
use rent_a_girlfriend.Dispute.Events.{DomainEvent}
use rent_a_girlfriend.Dispute.Aggregate.{Dispute}
use rent_a_girlfriend.Dispute.Action.{modify, Action, pure, raise, lift, gets, ◌>>=◌, ◌>>◌}
use rent_a_girlfriend.Dispute.Orchestrators.{Call}
use rent_a_girlfriend.Dispute.Orchestrators.Refund
use rent_a_girlfriend.Dispute.Orchestrators.Payout
use rent_a_girlfriend.Dispute.Mappers.{
  DisputeModel, SagaStateModel, Saga, ProtoMessage, dispute_created, dispute_resolved, to_model,
  to_domain, saga_to_domain, to_protobuf,
}

abbrev pub dispute_id : DisputeModel → String
dispute_id m = m.dispute_id

abbrev pub booking_id : DisputeModel → String
booking_id m = m.booking_id

abbrev pub saga_id : {Rate : Type 0} → SagaStateModel Rate → String
saga_id m = m.saga_id

-- What one request meets outside the service.
pub record Environment (Rate : Type 0) : Type 0 where
  pub disputes : Table dispute_id booking_id
  pub sagas : Table {R = SagaStateModel Rate} saga_id saga_id
  -- The version that `merge` and `flush` give the row, or `none` where another session has changed it.
  pub merged_version : DisputeModel → List DisputeModel → Option ℕ
  -- Whether the message can hold the event's fields.
  pub encodes : DomainEvent → Bool
  pub refund_ports : Refund.Ports
  pub payout_ports : Payout.Ports Rate

pub record OutboxModel : Type 0 where
  pub event_type : String
  pub payload : ProtoMessage

-- The tables as the session sees them, and the calls to other services, which no rollback undoes.
pub record Session (Rate : Type 0) : Type 0 where
  pub disputes : List DisputeModel
  pub sagas : List (SagaStateModel Rate)
  pub outbox : List OutboxModel
  pub calls : List Call

-- `dispute.{kebab_name}.v1`, from the name of the message's descriptor.
abbrev pub event_type : ProtoMessage → String
event_type (dispute_created d b r reason) = "dispute.dispute-created.v1"
event_type (dispute_resolved e) = "dispute.dispute-resolved.v1"

-- `status in ["OPEN", "RESOLVING"]`
abbrev pub is_active : DisputeStatus → Bool
is_active opened = true
is_active resolving = true
is_active refunded = false
is_active paid_out = false
is_active rejected = false
is_active (other s) = false

-- `current_state in ["HIDING_REVIEW", "LOCKING_CHAT"]`
abbrev pub is_retriable : SagaState → Bool
is_retriable hiding_review = true
is_retriable locking_chat = true
is_retriable _ = false

abbrev pub is_pending_retry : {Rate : Type 0} → SagaStateModel Rate → Bool
is_pending_retry m = is_some m.last_error && is_retriable m.current_state

unfoldable pub message : Option ProtoMessage → List OutboxModel
message none = []
message (some msg) = record { event_type = event_type msg; payload = msg } ∷ []

-- The messages of the published events; those without a contract have none.
unfoldable pub messages : List DomainEvent → List OutboxModel
unfolding to_protobuf message
messages [] = []
messages (e ∷ es) = message (to_protobuf e) ++ messages es

unfoldable pub or_raise : {S A : Type 0} → Error → Option A → Action S A
or_raise e none = raise e
or_raise e (some a) = pure a

module _ {Rate : Type 0} (env : Environment Rate) where
  -- `session.merge`, `session.flush`: the version of the row.
  unfoldable pub merge_dispute : DisputeModel → Action (Session Rate) ℕ
  unfolding or_raise
  merge_dispute model = do
    merged ← gets (λ s. env.merged_version model s.disputes)
    version ← or_raise database_error merged
    flushed ← gets (λ s. env.disputes.merge (record model { version = version }) s.disputes)
    disputes ← or_raise database_error flushed
    modify (λ s. record s { disputes = disputes })
    pure version

  -- `DisputeRepository.save`: the dispute with the version of its row.
  unfoldable pub save : Dispute → Action (Session Rate) Dispute
  unfolding to_model
  save dispute = do
    version ← merge_dispute (to_model dispute)
    pure (record dispute { version = version })

  unfoldable pub read : Option DisputeModel → Action (Session Rate) (Option Dispute)
  unfolding to_domain
  read none = pure none
  read (some model) = do dispute ← lift (to_domain model); pure (some dispute)

  unfoldable pub find_by_id : String → Action (Session Rate) (Option Dispute)
  find_by_id k = do
    model ← gets (λ s. env.disputes.first (λ m. dispute_id m == k) s.disputes)
    read model

  unfoldable pub find_by_booking_id : String → Action (Session Rate) (Option Dispute)
  find_by_booking_id b = do
    model ← gets (λ s. env.disputes.first (λ m. booking_id m == b) s.disputes)
    read model

  unfoldable pub find_open_by_booking_id : String → Action (Session Rate) (Option Dispute)
  find_open_by_booking_id b = do
    model ← gets (λ s. env.disputes.first (λ m. booking_id m == b && is_active m.status) s.disputes)
    read model

  unfoldable pub read_saga :
      Option (SagaStateModel Rate) → Action (Session Rate) (Option (Saga Rate))
  unfolding saga_to_domain
  read_saga none = pure none
  read_saga (some model) = do saga ← lift (saga_to_domain model); pure (some saga)

  unfoldable pub find_saga_by_id : String → Action (Session Rate) (Option (Saga Rate))
  find_saga_by_id k = do
    model ← gets (λ s. env.sagas.first (λ m. saga_id m == k) s.sagas)
    read_saga model

  unfoldable pub find_saga_by_dispute_id : String → Action (Session Rate) (Option (Saga Rate))
  find_saga_by_dispute_id k = do
    model ← gets (λ s. env.sagas.first (λ m. m.dispute_id == k) s.sagas)
    read_saga model

  unfoldable pub add_message : DomainEvent → Option ProtoMessage → Action (Session Rate) Unit
  add_message e none = pure tt
  add_message e (some msg) =
      if env.encodes e
      then modify (λ s. record s {
        outbox = s.outbox ++ record { event_type = event_type msg; payload = msg } ∷ [];
      })
      else raise encode_error

  -- `DatabaseEventPublisher.publish`; an event without a contract is not published.
  unfoldable pub publish : DomainEvent → Action (Session Rate) Unit
  unfolding to_protobuf add_message
  publish e = add_message e (to_protobuf e)

  -- `for event in dispute.clear_events(): self.event_publisher.publish(event)`
  unfoldable pub publish_all : List DomainEvent → Action (Session Rate) Unit
  publish_all [] = pure tt
  publish_all (e ∷ es) = publish e >> publish_all es

  -- `DisputeQueryService.get_dispute_detail`
  unfoldable pub get_dispute_detail : String → Action (Session Rate) Dispute
  get_dispute_detail k = do
    dispute ← find_by_id k
    elim dispute [ none ↦ raise (dispute_not_found k) | some d ↦ pure d ]

  -- `DisputeQueryService.get_saga_state`
  unfoldable pub get_saga_state : String → Action (Session Rate) (Option (Saga Rate))
  get_saga_state = find_saga_by_dispute_id
