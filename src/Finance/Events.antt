-- ===== src/Finance/Events.antt =====
-- services/finance-service/internal/domain/events.py. Where the source stores `str(e)` as the
-- reason, the event keeps the exception itself.
use rent_a_girlfriend.Prelude.{ℕ, String, ℤ}
use rent_a_girlfriend.Finance.Vo.{Error}

pub record CoinsFrozen : Type 0 where
  pub wallet_id : String
  pub user_id : String
  pub amount : ℕ
  pub booking_id : String

pub record CoinsUnfrozen : Type 0 where
  pub wallet_id : String
  pub user_id : String
  pub amount : ℕ
  pub booking_id : String

pub record EscrowCreated : Type 0 where
  pub booking_id : String
  pub amount : ℕ

pub record PayoutProcessed : Type 0 where
  pub booking_id : String
  pub companion_id : String
  pub amount : ℕ
  pub commission_amount : ℤ
  pub net_amount : ℤ

pub record EscrowRefunded : Type 0 where
  pub booking_id : String
  pub client_id : String
  pub refund_amount : ℕ

pub record WalletToppedUp : Type 0 where
  pub wallet_id : String
  pub user_id : String
  pub amount : ℕ
  pub vnpay_amount_vnd : ℤ

pub record EscrowFailed : Type 0 where
  pub booking_id : String
  pub client_id : String
  pub reason : Error

pub record RefundFailed : Type 0 where
  pub booking_id : String
  pub client_id : String
  pub reason : Error

pub record CoinsFreezeFailed : Type 0 where
  pub booking_id : String
  pub user_id : String
  pub amount : ℤ
  pub reason : Error

pub data DomainEvent : Type 0 where
  coins_frozen : CoinsFrozen → DomainEvent
  coins_unfrozen : CoinsUnfrozen → DomainEvent
  escrow_created : EscrowCreated → DomainEvent
  payout_processed : PayoutProcessed → DomainEvent
  escrow_refunded : EscrowRefunded → DomainEvent
  wallet_topped_up : WalletToppedUp → DomainEvent
  escrow_failed : EscrowFailed → DomainEvent
  refund_failed : RefundFailed → DomainEvent
  coins_freeze_failed : CoinsFreezeFailed → DomainEvent
