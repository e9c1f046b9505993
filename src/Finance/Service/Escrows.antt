-- ===== src/Finance/Service/Escrows.antt =====
-- Payout and refund of an escrow, of services/finance-service/internal/application/command/finance.py.
pub mod Closing
pub mod Paying
pub mod Refusing
pub mod Success
pub mod Refunding
pub mod RefundFailing
use rent_a_girlfriend.Prelude.{
  String, ℤ, pos, leb_ℤ, Option, none, some, ◌||◌, is_empty, or_else, if◌then◌else◌,
}
use rent_a_girlfriend.Finance.Vo.{TransactionType, Error, money}
use rent_a_girlfriend.Finance.Events.{refund_failed}
use rent_a_girlfriend.Finance.Wallet
use rent_a_girlfriend.Finance.Wallet.{Wallet}
use rent_a_girlfriend.Finance.Escrow
use rent_a_girlfriend.Finance.Escrow.{Escrow}
use rent_a_girlfriend.Finance.Transaction.{Transaction, success}
use rent_a_girlfriend.Finance.Action.{Action, pure, lift, or_raise, ◌>>=◌, ◌>>◌, commit, attempt}
use rent_a_girlfriend.Finance.Repositories.{
  Environment, save_wallet, save_escrow, find_escrow_by_booking_id, save_transaction,
  find_transaction_by_reference_id, publish, publish_all,
}
use rent_a_girlfriend.Finance.Service.Wallets.{nil_uuid, get_or_create_wallet}

-- The block that fills in the client and the amount of a refund from the reservation.
unfoldable pub resolve_refund : String → ℤ → Option Transaction → String × ℤ
resolve_refund client_id refund_amount none = (client_id, refund_amount)
resolve_refund client_id refund_amount (some reservation_txn) = (
  if is_empty client_id then reservation_txn.user_id else client_id,
  if leb_ℤ refund_amount (pos 0) then pos reservation_txn.amount else refund_amount,
)

-- Only a request without a client or without a positive amount needs the reservation.
unfoldable pub resolve_if_missing : String → ℤ → Option Transaction → String × ℤ
unfolding resolve_refund
resolve_if_missing client_id refund_amount reservation_txn =
    if is_empty client_id || leb_ℤ refund_amount (pos 0)
    then resolve_refund client_id refund_amount reservation_txn
    else (client_id, refund_amount)

unfoldable pub client_of_reservation : String → Option Transaction → String
client_of_reservation client_id none = client_id
client_of_reservation client_id (some txn) = if is_empty client_id then txn.user_id else client_id

module _ (env : Environment) where
  unfoldable pub process_payout : String → String → String → String → env.Rate → Action String
  process_payout wallet_id txn_id booking_id companion_id commission_rate = do
    found ← find_escrow_by_booking_id env booking_id
    escrow ← or_raise (Error.escrow_not_found booking_id) found
    paid ← lift (Escrow.payout companion_id (λ n. env.round_product n commission_rate) escrow)
    companion_wallet ← get_or_create_wallet env wallet_id companion_id
    net ← lift (money paid.1)
    let txn : Transaction = record {
      transaction_id = txn_id;
      user_id = companion_id;
      amount = net;
      type = TransactionType.escrow_release;
      status = success;
      reference_id = booking_id;
    }
    save_escrow env paid.2
    save_wallet env (Wallet.deposit net companion_wallet)
    save_transaction env txn
    publish_all env paid.2.events
    pure txn_id

  -- The `try` block of `refund_escrow` down to the resolved client and amount.
  unfoldable pub find_refund : String → String → ℤ → Action (Escrow × String × ℤ)
  find_refund booking_id client_id refund_amount = do
    found ← find_escrow_by_booking_id env booking_id
    escrow ← or_raise (Error.escrow_not_found booking_id) found
    reservation_txn ←
        find_transaction_by_reference_id env booking_id TransactionType.booking_reservation
    let resolved = resolve_if_missing client_id refund_amount reservation_txn
    pure (escrow, resolved.0, resolved.1)

  -- The rest of the `try` block of `refund_escrow`.
  unfoldable pub pay_refund : String → String → String → Escrow → String → ℤ → Action String
  pay_refund wallet_id txn_id booking_id escrow client_id refund_amount = do
    money_refund ← lift (money refund_amount)
    refunded ← lift (Escrow.refund client_id money_refund escrow)
    client_wallet ← get_or_create_wallet env wallet_id client_id
    let txn : Transaction = record {
      transaction_id = txn_id;
      user_id = client_id;
      amount = money_refund;
      type = TransactionType.refund;
      status = success;
      reference_id = booking_id;
    }
    save_escrow env refunded
    save_wallet env (Wallet.deposit money_refund client_wallet)
    save_transaction env txn
    publish_all env refunded.events
    pure txn_id

  -- The `except` block of `refund_escrow`.
  unfoldable pub report_refund_failed : String → String → Error → Action Unit
  report_refund_failed booking_id client_id e = do
    txn ← find_transaction_by_reference_id env booking_id TransactionType.booking_reservation
    publish env (
        refund_failed (record {
          booking_id = booking_id;
          client_id = or_else (client_of_reservation client_id txn) nil_uuid;
          reason = e;
        }))
    commit

  -- An exception before the client is resolved is reported for the client of the request, one after
  -- that for the resolved client.
  unfoldable pub refund_escrow : String → String → String → String → ℤ → Action String
  refund_escrow wallet_id txn_id booking_id client_id refund_amount = do
    resolved ←
        attempt (report_refund_failed booking_id client_id)
          (find_refund booking_id client_id refund_amount)
    attempt (report_refund_failed booking_id resolved.1)
        (pay_refund wallet_id txn_id booking_id resolved.0 resolved.1 resolved.2)
