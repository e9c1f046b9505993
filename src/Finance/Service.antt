-- ===== src/Finance/Service.antt =====
-- services/finance-service/internal/application/command/finance.py: `FinanceCommandService` as
-- bootstrap wires it, with its session. What `uuid.uuid4()` returns is an argument of each method.
pub mod Wallets
pub mod Reservations
pub mod Escrows
pub mod Topups
pub mod Conserving
