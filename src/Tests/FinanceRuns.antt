-- ===== src/Tests/FinanceRuns.antt =====
-- Freezing, unfreezing, escrow, payout and refund at concrete inputs.

use rent_a_girlfriend.Prelude.{ℕ, String, pos, ◌≡◌, refl, or_else}
use rent_a_girlfriend.Table.Rows.{upsert}
use rent_a_girlfriend.Table.Listed.{first_row, merge_row}
use rent_a_girlfriend.Finance.Vo.{
  TransactionType, Error, ok, err, money, same_type, insufficient_balance,
}
use rent_a_girlfriend.Finance.Events.{coins_freeze_failed, escrow_failed, refund_failed}
use rent_a_girlfriend.Finance.Wallet
use rent_a_girlfriend.Finance.Escrow
use rent_a_girlfriend.Finance.Escrow.{release}
use rent_a_girlfriend.Finance.Action.{Action, in_session, attempt, ◌>>=◌, write, commit}
use rent_a_girlfriend.Finance.Repositories.{
  save_wallet, save_escrow, save_transaction, publish, publish_all, find_wallet_by_user_id,
  find_escrow_by_booking_id, find_transaction_by_reference_id, to_model, to_domain, escrow_to_model,
  escrow_to_domain,
}
use rent_a_girlfriend.Finance.Steps.Saved.{reported}
use rent_a_girlfriend.Finance.Service.Wallets.{get_or_create_wallet, use_or_create, nil_uuid}
use rent_a_girlfriend.Finance.Service.Reservations
use rent_a_girlfriend.Finance.Service.Reservations.{
  freeze_reservation, unfreeze_reservation, move_to_escrow, refuse_held, reservation_done,
  transfer_to_escrow,
}
use rent_a_girlfriend.Finance.Service.Reservations.Freezing.{
  freeze_coin_reserves, freeze_coin_fails, Reserved,
}
use rent_a_girlfriend.Finance.Service.Reservations.Unfreezing.{
  unfreeze_coin_releases, unfreeze_coin_fails, Unreserved,
}
use rent_a_girlfriend.Finance.Service.Reservations.Moving.{
  transfer_to_escrow_holds, transfer_to_escrow_fails, Escrowed,
}
use rent_a_girlfriend.Finance.Transaction.{succeed}
use rent_a_girlfriend.Tests.World.{
  demo, reserved_db, held_db, reserved_db-IsValid, new_wallet-IsFresh,
}

abbrev id : String
id = "t1"

abbrev x_id : String
x_id = "x1"

abbrev freeze : Action String
freeze =
    Reservations.freeze_coin demo "w2" id "alice" (pos 30) "b1" TransactionType.booking_reservation

freezes : in_session freeze reserved_db ≡ (ok id, (in_session freeze reserved_db).1)
unfolding in_session attempt ◌>>=◌ write get_or_create_wallet use_or_create find_wallet_by_user_id
    find_escrow_by_booking_id find_transaction_by_reference_id same_type save_wallet save_escrow
    save_transaction publish publish_all commit money upsert first_row merge_row to_model to_domain
    escrow_to_model escrow_to_domain Reservations.freeze_coin freeze_reservation Wallet.freeze_coin
freezes = refl

freeze_coin_reserves_example :
    (id ≡ id)
    × ((n : ℕ) × (pos 30 ≡ pos n)
        × Reserved "alice" "b1" id TransactionType.booking_reservation n reserved_db
            (in_session freeze reserved_db).1)
freeze_coin_reserves_example =
    freeze_coin_reserves demo "w2" id "alice" (pos 30) "b1" TransactionType.booking_reservation
      reserved_db reserved_db-IsValid new_wallet-IsFresh freezes

abbrev freeze_too_much : Action String
freeze_too_much =
    Reservations.freeze_coin demo "w2" id "alice" (pos 500) "b1" TransactionType.booking_reservation

freeze_is_refused :
    in_session freeze_too_much reserved_db
    ≡ (err (insufficient_balance "w1" 500 100), (in_session freeze_too_much reserved_db).1)
unfolding in_session attempt ◌>>=◌ write get_or_create_wallet use_or_create find_wallet_by_user_id
    find_escrow_by_booking_id find_transaction_by_reference_id same_type save_wallet save_escrow
    save_transaction publish publish_all commit money upsert first_row merge_row to_model to_domain
    escrow_to_model escrow_to_domain Reservations.freeze_coin freeze_reservation Wallet.freeze_coin
freeze_is_refused = refl

freeze_coin_fails_example :
    (in_session freeze_too_much reserved_db).1
    ≡ reported demo
        (coins_freeze_failed (record {
          booking_id = "b1";
          user_id = or_else "alice" nil_uuid;
          amount = pos 500;
          reason = insufficient_balance "w1" 500 100;
        }))
        reserved_db
freeze_coin_fails_example =
    freeze_coin_fails demo "w2" id "alice" (pos 500) "b1" TransactionType.booking_reservation
      reserved_db freeze_is_refused

abbrev unfreeze : Action String
unfreeze = Reservations.unfreeze_coin demo id "alice" (pos 50) "b0"

unfreezes : in_session unfreeze reserved_db ≡ (ok id, (in_session unfreeze reserved_db).1)
unfolding in_session attempt ◌>>=◌ write get_or_create_wallet use_or_create find_wallet_by_user_id
    find_escrow_by_booking_id find_transaction_by_reference_id same_type save_wallet save_escrow
    save_transaction publish publish_all commit money upsert first_row merge_row to_model to_domain
    escrow_to_model escrow_to_domain Reservations.unfreeze_coin unfreeze_reservation
    Wallet.unfreeze_coin
unfreezes = refl

unfreeze_coin_releases_example :
    (id ≡ id)
    × ((n : ℕ) × (pos 50 ≡ pos n)
        × Unreserved "alice" "b0" id n reserved_db (in_session unfreeze reserved_db).1)
unfreeze_coin_releases_example =
    unfreeze_coin_releases demo id "alice" (pos 50) "b0" reserved_db reserved_db-IsValid unfreezes

abbrev unfreeze_unknown : Action String
unfreeze_unknown = Reservations.unfreeze_coin demo id "bob" (pos 50) "b0"

unfreeze_is_refused :
    in_session unfreeze_unknown reserved_db
    ≡ (err (Error.wallet_not_found "bob"), (in_session unfreeze_unknown reserved_db).1)
unfolding in_session attempt ◌>>=◌ write get_or_create_wallet use_or_create find_wallet_by_user_id
    find_escrow_by_booking_id find_transaction_by_reference_id same_type save_wallet save_escrow
    save_transaction publish publish_all commit money upsert first_row merge_row to_model to_domain
    escrow_to_model escrow_to_domain Reservations.unfreeze_coin unfreeze_reservation
    Wallet.unfreeze_coin
unfreeze_is_refused = refl

unfreeze_coin_fails_example :
    (in_session unfreeze_unknown reserved_db).1
    ≡ reported demo
        (refund_failed (record {
          booking_id = "b0";
          client_id = or_else "bob" nil_uuid;
          reason = Error.wallet_not_found "bob";
        }))
        reserved_db
unfreeze_coin_fails_example =
    unfreeze_coin_fails demo id "bob" (pos 50) "b0" reserved_db unfreeze_is_refused

abbrev transfer : Action String
transfer = transfer_to_escrow demo x_id id "alice" (pos 50) "b0"

transfers : in_session transfer reserved_db ≡ (ok x_id, (in_session transfer reserved_db).1)
unfolding in_session attempt ◌>>=◌ write get_or_create_wallet use_or_create find_wallet_by_user_id
    find_escrow_by_booking_id find_transaction_by_reference_id same_type save_wallet save_escrow
    save_transaction publish publish_all commit money upsert first_row merge_row to_model to_domain
    escrow_to_model escrow_to_domain transfer_to_escrow move_to_escrow refuse_held reservation_done
    Wallet.deduct_frozen Escrow.create succeed
transfers = refl

transfer_to_escrow_holds_example :
    (x_id ≡ x_id)
    × ((n : ℕ) × (pos 50 ≡ pos n)
        × Escrowed "alice" "b0" x_id id n reserved_db (in_session transfer reserved_db).1)
transfer_to_escrow_holds_example =
    transfer_to_escrow_holds demo x_id id "alice" (pos 50) "b0" reserved_db reserved_db-IsValid tt
      transfers

abbrev transfer_again : Action String
transfer_again = transfer_to_escrow demo x_id id "alice" (pos 50) "b0"

transfer_is_refused :
    in_session transfer_again held_db
    ≡ (err (Error.escrow_already_exists "b0"), (in_session transfer_again held_db).1)
unfolding in_session attempt ◌>>=◌ write get_or_create_wallet use_or_create find_wallet_by_user_id
    find_escrow_by_booking_id find_transaction_by_reference_id same_type save_wallet save_escrow
    save_transaction publish publish_all commit money upsert first_row merge_row to_model to_domain
    escrow_to_model escrow_to_domain transfer_to_escrow move_to_escrow refuse_held reservation_done
    Wallet.deduct_frozen Escrow.create succeed
transfer_is_refused = refl

-- A booking whose coins are in escrow already.
transfer_to_escrow_fails_example :
    (in_session transfer_again held_db).1
    ≡ reported demo
        (escrow_failed (record {
          booking_id = "b0";
          client_id = or_else "alice" nil_uuid;
          reason = Error.escrow_already_exists "b0";
        }))
        held_db
transfer_to_escrow_fails_example =
    transfer_to_escrow_fails demo x_id id "alice" (pos 50) "b0" held_db transfer_is_refused
