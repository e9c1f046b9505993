-- ===== src/Finance/Service/Reservations.antt =====
-- Freezing, unfreezing and the move into escrow, of
-- services/finance-service/internal/application/command/finance.py.
pub mod Freezing
pub mod Success
pub mod Unfreezing
pub mod Marking
pub mod Moving
use rent_a_girlfriend.Prelude.{String, ℤ, Option, none, some, or_else, if◌then◌else◌}
use rent_a_girlfriend.Finance.Vo.{Money, TransactionType, is_held, Error, money}
use rent_a_girlfriend.Finance.Events.{coins_freeze_failed, refund_failed, escrow_failed}
use rent_a_girlfriend.Finance.Wallet
use rent_a_girlfriend.Finance.Wallet.{Wallet}
use rent_a_girlfriend.Finance.Escrow
use rent_a_girlfriend.Finance.Escrow.{Escrow}
use rent_a_girlfriend.Finance.Transaction.{Transaction, pending, success, succeed}
use rent_a_girlfriend.Finance.Action.{
  Action, pure, raise, lift, or_raise, ◌>>=◌, ◌>>◌, commit, attempt,
}
use rent_a_girlfriend.Finance.Repositories.{
  Environment, save_wallet, find_wallet_by_user_id, save_escrow, find_escrow_by_booking_id,
  save_transaction, find_transaction_by_reference_id, publish, publish_all,
}
use rent_a_girlfriend.Finance.Service.Wallets.{nil_uuid, get_or_create_wallet}

-- `if existing_escrow and existing_escrow.status == "HELD": raise EscrowAlreadyExistsError`
unfoldable pub refuse_held : String → Option Escrow → Action Unit
refuse_held booking_id none = pure tt
refuse_held booking_id (some x) =
    if is_held x.status then raise (Error.escrow_already_exists booking_id) else pure tt

-- The reservation's transaction, marked as a success, or a new one.
unfoldable pub reservation_done :
    String → String → Money → String → Option Transaction → Transaction
reservation_done txn_id user_id m booking_id none = record {
  transaction_id = txn_id;
  user_id = user_id;
  amount = m;
  type = TransactionType.booking_reservation;
  status = success;
  reference_id = booking_id;
}
reservation_done txn_id user_id m booking_id (some txn) = succeed txn

module _ (env : Environment) where
  -- The `try` block of `freeze_coin`.
  unfoldable pub freeze_reservation :
      String → String → String → ℤ → String → TransactionType → Action String
  freeze_reservation wallet_id txn_id user_id amount booking_id txn_type = do
    wallet ← get_or_create_wallet env wallet_id user_id
    m ← lift (money amount)
    frozen ← lift (Wallet.freeze_coin m booking_id wallet)
    let txn : Transaction = record {
      transaction_id = txn_id;
      user_id = user_id;
      amount = m;
      type = txn_type;
      status = pending;
      reference_id = booking_id;
    }
    save_wallet env frozen
    save_transaction env txn
    publish_all env frozen.events
    pure txn_id

  unfoldable pub freeze_coin :
      String → String → String → ℤ → String → TransactionType → Action String
  freeze_coin wallet_id txn_id user_id amount booking_id txn_type =
      attempt
        (λ e.
          publish env (
            coins_freeze_failed (record {
              booking_id = booking_id;
              user_id = or_else user_id nil_uuid;
              amount = amount;
              reason = e;
            }))
          >> commit)
        (freeze_reservation wallet_id txn_id user_id amount booking_id txn_type)

  -- The `try` block of `unfreeze_coin`.
  unfoldable pub unfreeze_reservation : String → String → ℤ → String → Action String
  unfreeze_reservation txn_id user_id amount booking_id = do
    found ← find_wallet_by_user_id env user_id
    wallet ← or_raise (Error.wallet_not_found user_id) found
    m ← lift (money amount)
    unfrozen ← lift (Wallet.unfreeze_coin m booking_id wallet)
    let txn : Transaction = record {
      transaction_id = txn_id;
      user_id = user_id;
      amount = m;
      type = TransactionType.refund;
      status = success;
      reference_id = booking_id;
    }
    save_wallet env unfrozen
    save_transaction env txn
    publish_all env unfrozen.events
    pure txn_id

  unfoldable pub unfreeze_coin : String → String → ℤ → String → Action String
  unfreeze_coin txn_id user_id amount booking_id =
      attempt
        (λ e.
          publish env (
            refund_failed (record {
              booking_id = booking_id;
              client_id = or_else user_id nil_uuid;
              reason = e;
            }))
          >> commit)
        (unfreeze_reservation txn_id user_id amount booking_id)

  -- The `try` block of `transfer_to_escrow`.
  unfoldable pub move_to_escrow : String → String → String → ℤ → String → Action String
  move_to_escrow escrow_id txn_id user_id amount booking_id = do
    found ← find_wallet_by_user_id env user_id
    wallet ← or_raise (Error.wallet_not_found user_id) found
    m ← lift (money amount)
    existing_escrow ← find_escrow_by_booking_id env booking_id
    refuse_held booking_id existing_escrow
    deducted ← lift (Wallet.deduct_frozen m wallet)
    let escrow = Escrow.create escrow_id booking_id m
    reserved ← find_transaction_by_reference_id env booking_id TransactionType.booking_reservation
    let txn = reservation_done txn_id user_id m booking_id reserved
    save_wallet env deducted
    save_escrow env escrow
    save_transaction env txn
    publish_all env escrow.events
    pure escrow_id

  unfoldable pub transfer_to_escrow : String → String → String → ℤ → String → Action String
  transfer_to_escrow escrow_id txn_id user_id amount booking_id =
      attempt
        (λ e.
          publish env (
            escrow_failed (record {
              booking_id = booking_id;
              client_id = or_else user_id nil_uuid;
              reason = e;
            }))
          >> commit)
        (move_to_escrow escrow_id txn_id user_id amount booking_id)
