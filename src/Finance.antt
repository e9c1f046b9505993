-- ===== src/Finance.antt =====
-- The finance service (services/finance-service): Kano-Coin wallets, escrows and the ledger.
pub mod Vo
pub mod Events
pub mod Wallet
pub mod Escrow
pub mod Transaction
pub mod Action
pub mod Repositories
pub mod Vnpay
pub mod Ledger
pub mod Steps
pub mod Service
pub mod Listener
