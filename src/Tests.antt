-- ===== src/Tests.antt =====
-- The theorems at concrete inputs.
pub mod World
mod FinanceRuns
mod ListenerRuns
mod PaymentRuns
mod DisputeRuns
mod DisputeRequests
mod ProfileRuns
mod OutboxRuns
