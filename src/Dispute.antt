-- ===== src/Dispute.antt =====
-- services/dispute-service: disputes, the sagas that follow their resolution, and the commands.
pub mod Vo
pub mod Events
pub mod Aggregate
pub mod SagaState
pub mod Action
pub mod Orchestrators
pub mod Mappers
pub mod Repositories
pub mod Commands
pub mod Dtos
pub mod Handlers
