-- ===== src/Tests/PaymentRuns.antt =====
-- Payout, refund and the callback of the payment gateway at concrete inputs.

use rent_a_girlfriend.Finance.Service.Escrows.RefundFailing.{refund_escrow_fails, failed_refund}
use rent_a_girlfriend.Finance.Steps.Saved.{reported}
use rent_a_girlfriend.Prelude.{
  arith, ◌∙◌, sym, ap, ne_of_==-false, arith, ap, sym, ◌∙◌, ne_of_==-false, not, ◌&&◌, ◌++◌, ◌==◌,
  is_empty, Memᴰ, [], ◌∷◌, ℕ, String, ℤ, pos, ◌≡◌, refl, some, ◌-ℤ◌, div_ℤ,
}
use rent_a_girlfriend.Table.Rows.{IsFresh, mem_unique, upsert}
use rent_a_girlfriend.Table.Listed.{first_row, merge_row}
use rent_a_girlfriend.Finance.Vo.{Error, ok, err, money, same_type}
use rent_a_girlfriend.Finance.Wallet
use rent_a_girlfriend.Finance.Escrow
use rent_a_girlfriend.Finance.Escrow.{release}
use rent_a_girlfriend.Finance.Action.{
  Action, EscrowModel, in_session, attempt, ◌>>=◌, write, commit,
}
use rent_a_girlfriend.Finance.Repositories.{
  booking_id, wallet_id, save_wallet, save_escrow, save_transaction, publish, publish_all,
  find_wallet_by_user_id, find_escrow_by_booking_id, find_transaction_by_id,
  find_transaction_by_reference_id, to_model, to_domain, escrow_to_model, escrow_to_domain,
}
use rent_a_girlfriend.Finance.Service.Wallets.{get_or_create_wallet, use_or_create}
use rent_a_girlfriend.Finance.Service.Escrows.{
  process_payout, refund_escrow, find_refund, pay_refund, resolve_if_missing, resolve_refund,
}
use rent_a_girlfriend.Finance.Service.Escrows.Paying.{process_payout_releases, PaidOut}
use rent_a_girlfriend.Finance.Service.Escrows.Refusing.{
  IsPayable, process_payout_refuses, process_payout_twice,
}
use mathlib.Core.Option.{some-injective}
use rent_a_girlfriend.Finance.Service.Escrows.Refunding.{refund_escrow_pays, Refunded}
use rent_a_girlfriend.Finance.Transaction.{succeed, fail}
use rent_a_girlfriend.Finance.Vnpay.{
  Params, get, without_hash, query_of, sign, signature_matches, validate_ipn_signature,
}
use rent_a_girlfriend.Finance.Service.Topups.{
  IpnResponse, confirm_success, already_confirmed, process_vnpay_ipn, settle_found, settle,
  check_amount, conclude, credit_topup, find_order, vnp_amount, is_confirmed,
}
use rent_a_girlfriend.Finance.Service.Topups.Callbacks.{process_vnpay_ipn_outcome, IpnOutcome}
use rent_a_girlfriend.Finance.Service.Topups.Redelivery.{process_vnpay_ipn_twice}
use rent_a_girlfriend.Finance.Vnpay.Signatures.{validate_ipn_signature-signed}
use rent_a_girlfriend.Finance.Service.Reservations.Marking.{reservation_of}
use rent_a_girlfriend.Finance.Service.Topups.History.{PageLimit, history_window-bounds}
use rent_a_girlfriend.Finance.Service.Topups.{history_window}
use rent_a_girlfriend.Prelude.{◌-◌, ◌*◌, pos_part}
use rent_a_girlfriend.Tests.World.{
  held_escrow, demo, held_db, topup_db, topup_db-IsValid, held_db-IsValid, new_wallet-IsFresh,
}

abbrev id : String
id = "t1"

abbrev pay_out : Action String
pay_out = process_payout demo "w2" id "b0" "carol" 20

pays_out : in_session pay_out held_db ≡ (ok id, (in_session pay_out held_db).1)
unfolding in_session attempt ◌>>=◌ write get_or_create_wallet use_or_create find_wallet_by_user_id
    find_escrow_by_booking_id find_transaction_by_reference_id same_type save_wallet save_escrow
    save_transaction publish publish_all commit money upsert first_row merge_row to_model to_domain
    escrow_to_model escrow_to_domain process_payout Escrow.payout release Wallet.deposit ◌-ℤ◌
pays_out = refl

process_payout_releases_example :
    (id ≡ id)
    × ((row : EscrowModel) × (c : ℤ) × (n : ℕ) × (demo.round_product row.amount 20 ≡ some c)
        × PaidOut "b0" "carol" id row c n held_db (in_session pay_out held_db).1)
process_payout_releases_example =
    process_payout_releases demo "w2" id "b0" "carol" 20 held_db held_db-IsValid new_wallet-IsFresh
      pays_out

-- A commission of twice the amount of the escrow.
too_dear : ¬ IsPayable demo "b0" 200 held_db
unfolding ◌-ℤ◌
too_dear p =
    let same : p.row ≡ held_escrow =
      mem_unique booking_id p.row held_escrow (held_escrow ∷ []) held_db-IsValid.booking_ids
        p.stored (Memᴰ.head refl) p.booking in
    let rounded : some (pos 100) ≡ some p.commission =
      ap (λ (x : EscrowModel). demo.round_product x.amount 200) (sym same) ∙ p.rounded in
    let covered : pos p.net ≡ pos 50 -ℤ pos 100 =
      p.covered
      ∙ ap (λ (x : EscrowModel). pos x.amount -ℤ p.commission) same
      ∙ ap (λ c. pos 50 -ℤ c) (sym (some-injective _ _ rounded)) in
    ground (arith, covered)

process_payout_refuses_example :
    (e : Error) × (in_session (process_payout demo "w2" id "b0" "carol" 200) held_db
      ≡ (err e, held_db))
process_payout_refuses_example =
    process_payout_refuses demo "w2" id "b0" "carol" 200 held_db held_db-IsValid new_wallet-IsFresh
      too_dear

third_wallet-IsFresh : IsFresh wallet_id "w3" (in_session pay_out held_db).1.wallets
unfolding in_session attempt ◌>>=◌ write get_or_create_wallet use_or_create find_wallet_by_user_id
    find_escrow_by_booking_id find_transaction_by_reference_id same_type save_wallet save_escrow
    save_transaction publish publish_all commit money upsert first_row merge_row to_model to_domain
    escrow_to_model escrow_to_domain process_payout Escrow.payout release Wallet.deposit ◌-ℤ◌
third_wallet-IsFresh = (ne_of_==-false "w1" "w3" refl, (ne_of_==-false "w2" "w3" refl, tt))

process_payout_twice_example :
    (e : Error) × (in_session
        (process_payout demo "w3" "t2" "b0" "carol" 20)
        (in_session pay_out held_db).1
      ≡ (err e, (in_session pay_out held_db).1))
process_payout_twice_example =
    process_payout_twice demo "w2" id "b0" "carol" 20 "w3" "t2" "carol" 20 held_db held_db-IsValid
      new_wallet-IsFresh pays_out third_wallet-IsFresh

abbrev refund : Action String
refund = refund_escrow demo "w2" id "b0" "" (pos 0)

refunds : in_session refund held_db ≡ (ok id, (in_session refund held_db).1)
unfolding in_session attempt ◌>>=◌ write get_or_create_wallet use_or_create find_wallet_by_user_id
    find_escrow_by_booking_id find_transaction_by_reference_id same_type save_wallet save_escrow
    save_transaction publish publish_all commit money upsert first_row merge_row to_model to_domain
    escrow_to_model escrow_to_domain refund_escrow find_refund resolve_if_missing resolve_refund
    pay_refund Escrow.refund Wallet.deposit
refunds = refl

-- A request without a client and an amount.
refund_escrow_pays_example :
    (id ≡ id)
    × ((row : EscrowModel) × (u : String) × (n : ℕ) × (resolve_if_missing ""
            (pos 0)
            (reservation_of demo "b0" held_db)
          ≡ (u, pos n))
        × Refunded "b0" u id row n held_db (in_session refund held_db).1)
refund_escrow_pays_example =
    refund_escrow_pays demo "w2" id "b0" "" (pos 0) held_db held_db-IsValid new_wallet-IsFresh
      refunds

abbrev refund_unknown : Action String
refund_unknown = refund_escrow demo "w2" id "b9" "alice" (pos 50)

refund_is_refused :
    in_session refund_unknown held_db
    ≡ (err (Error.escrow_not_found "b9"), (in_session refund_unknown held_db).1)
unfolding in_session attempt ◌>>=◌ write get_or_create_wallet use_or_create find_wallet_by_user_id
    find_escrow_by_booking_id find_transaction_by_reference_id same_type save_wallet save_escrow
    save_transaction publish publish_all commit money upsert first_row merge_row to_model to_domain
    escrow_to_model escrow_to_domain refund_escrow find_refund resolve_if_missing resolve_refund
    pay_refund Escrow.refund Wallet.deposit
refund_is_refused = refl

refund_escrow_fails_example :
    (u : String) × ((in_session refund_unknown held_db).1
      ≡ reported demo (failed_refund "b9" u (Error.escrow_not_found "b9")) held_db)
refund_escrow_fails_example =
    refund_escrow_fails demo "w2" id "b9" "alice" (pos 50) held_db refund_is_refused

abbrev callback : Params
callback =
    ("vnp_TxnRef", "t9")
    ∷ ("vnp_Amount", "2000000")
    ∷ ("vnp_ResponseCode", "00")
    ∷ ("vnp_SecureHash", "signature")
    ∷ []

abbrev confirm : Action IpnResponse
confirm = process_vnpay_ipn demo "w2" callback

confirms : in_session confirm topup_db ≡ (ok confirm_success, (in_session confirm topup_db).1)
unfolding in_session attempt ◌>>=◌ write get_or_create_wallet use_or_create find_wallet_by_user_id
    find_escrow_by_booking_id find_transaction_by_reference_id same_type save_wallet save_escrow
    save_transaction publish publish_all commit money upsert first_row merge_row to_model to_domain
    escrow_to_model escrow_to_domain process_vnpay_ipn validate_ipn_signature signature_matches get
    without_hash query_of sign find_order find_transaction_by_id settle_found settle vnp_amount
    check_amount is_confirmed conclude credit_topup succeed fail Wallet.topup div_ℤ
confirms = refl

process_vnpay_ipn_outcome_example :
    IpnOutcome demo callback topup_db confirm_success (in_session confirm topup_db).1
process_vnpay_ipn_outcome_example =
    process_vnpay_ipn_outcome demo "w2" callback topup_db topup_db-IsValid new_wallet-IsFresh
      confirms

process_vnpay_ipn_twice_example :
    in_session (process_vnpay_ipn demo "w3" callback) (in_session confirm topup_db).1
    ≡ (ok already_confirmed, (in_session confirm topup_db).1)
process_vnpay_ipn_twice_example =
    process_vnpay_ipn_twice demo callback "w2" "w3" topup_db topup_db-IsValid new_wallet-IsFresh
      confirms refl

commission : pos 50 -ℤ pos 10 ≡ pos 40
unfolding ◌-ℤ◌
commission = refl

abbrev unsigned : Params
unsigned = ("vnp_TxnRef", "t9") ∷ ("vnp_Amount", "2000000") ∷ []

validate_ipn_signature-signed_example :
    validate_ipn_signature demo (unsigned ++ ("vnp_SecureHash", "signature") ∷ [])
    ≡ (not (is_empty "signature") && demo.lower (sign demo unsigned) == demo.lower "signature")
validate_ipn_signature-signed_example =
    validate_ipn_signature-signed demo unsigned "signature" (refl, (refl, tt))

history_window-bounds_example :
    (n : ℕ) × PageLimit (pos 500) n
    × (history_window (pos 3) (pos 500) ≡ (pos n, pos ((pos_part (pos 3) - 1) * n)))
history_window-bounds_example = history_window-bounds (pos 3) (pos 500)
