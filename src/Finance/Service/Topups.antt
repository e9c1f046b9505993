-- ===== src/Finance/Service/Topups.antt =====
-- Top-ups, the callback of the payment gateway and the history, of
-- services/finance-service/internal/application/command/finance.py.
pub mod History
pub mod Callbacks
pub mod Redelivery
use rent_a_girlfriend.Prelude.{
  ◌*◌, ◌-ℤ◌, ◌*ℤ◌, String, ℤ, pos, pos_part, ltb_ℤ, eq_ℤ, div_ℤ, ltb, Bool, false, Option, none,
  some, ◌==◌, is_empty, if◌then◌else◌,
}
use rent_a_girlfriend.Finance.Vo.{TransactionType, Error, Result, ok, err, money, rate_coin_to_vnd}
use rent_a_girlfriend.Finance.Wallet
use rent_a_girlfriend.Finance.Wallet.{Wallet}
use rent_a_girlfriend.Finance.Transaction.{Transaction, pending, is_pending, succeed, fail}
use rent_a_girlfriend.Finance.Vnpay.{Params, get, generate_payment_url, validate_ipn_signature}
use rent_a_girlfriend.Finance.Action.{Action, pure, lift, ◌>>=◌, ◌>>◌}
use rent_a_girlfriend.Finance.Repositories.{
  Environment, save_wallet, save_transaction, find_transaction_by_id, publish_all,
}
use rent_a_girlfriend.Finance.Service.Wallets.{get_or_create_wallet}

-- The replies to the gateway.
pub record IpnResponse : Type 0 where
  pub rsp_code : String
  pub message : String

abbrev pub confirm_success : IpnResponse
confirm_success = record { rsp_code = "00"; message = "Confirm success" }

abbrev pub invalid_signature : IpnResponse
invalid_signature = record { rsp_code = "97"; message = "Invalid Signature" }

abbrev pub order_not_found : IpnResponse
order_not_found = record { rsp_code = "01"; message = "Order not found" }

abbrev pub already_confirmed : IpnResponse
already_confirmed = record { rsp_code = "02"; message = "Order already confirmed" }

abbrev pub invalid_amount_response : IpnResponse
invalid_amount_response = record { rsp_code = "04"; message = "Invalid Amount" }

-- Whether the gateway confirms the payment.
unfoldable pub is_confirmed : Option String → Bool
is_confirmed none = false
is_confirmed (some code) = code == "00"

module _ (env : Environment) where
  -- A top-up's coins are VND in thousands; a negative amount raises before the conversion is used.
  unfoldable pub initiate_topup : String → String → String → ℤ → String → Action String
  initiate_topup create_date txn_id user_id amount_coins client_ip = do
    m ← lift (money amount_coins)
    let vnd_amount = rate_coin_to_vnd * m
    let txn : Transaction = record {
      transaction_id = txn_id;
      user_id = user_id;
      amount = m;
      type = TransactionType.topup;
      status = pending;
      reference_id = txn_id;
    }
    save_transaction env txn
    pure (generate_payment_url env create_date txn_id vnd_amount client_ip)

  -- `int(params.get("vnp_Amount", 0))`
  unfoldable pub vnp_amount : Option String → Result ℤ
  vnp_amount none = ok (pos 0)
  vnp_amount (some text) = elim (env.parse_int text) [
    | none ↦ err Error.value_error
    | some n ↦ ok n
  ]

  -- Step 6 of `process_vnpay_ipn` on a successful payment.
  unfoldable pub credit_topup : String → Transaction → ℤ → Action Unit
  credit_topup wallet_id txn vnpay_amount_vnd = do
    wallet ← get_or_create_wallet env wallet_id txn.user_id
    let credited = Wallet.topup txn.amount vnpay_amount_vnd wallet
    save_wallet env credited
    save_transaction env (succeed txn)
    publish_all env credited.events

  -- Step 6: the gateway's verdict on the payment.
  unfoldable pub conclude : String → Params → Transaction → ℤ → Action IpnResponse
  conclude wallet_id params txn vnp_amount_cent =
      (if is_confirmed (get "vnp_ResponseCode" params)
        then credit_topup wallet_id txn (div_ℤ vnp_amount_cent 100)
        else save_transaction env (fail txn))
      >> pure confirm_success

  -- Step 5: the amount must be the transaction's, in hundredths of VND.
  unfoldable pub check_amount : String → Params → Transaction → ℤ → Action IpnResponse
  check_amount wallet_id params txn vnp_amount_cent =
      if eq_ℤ vnp_amount_cent (pos (rate_coin_to_vnd * txn.amount * 100))
      then conclude wallet_id params txn vnp_amount_cent
      else pure invalid_amount_response

  -- Steps 4 to 6, on the transaction that was found.
  unfoldable pub settle : String → Params → Transaction → Action IpnResponse
  settle wallet_id params txn =
      if is_pending txn.status
      then (do
        vnp_amount_cent ← lift (vnp_amount (get "vnp_Amount" params))
        check_amount wallet_id params txn vnp_amount_cent)
      else pure already_confirmed

  unfoldable pub settle_found : String → Params → Option Transaction → Action IpnResponse
  settle_found wallet_id params none = pure order_not_found
  settle_found wallet_id params (some txn) = settle wallet_id params txn

  -- Steps 2 and 3: the transaction that the callback names.
  unfoldable pub find_order : Option String → Action (Option Transaction)
  find_order none = pure none
  find_order (some txn_id) =
      if is_empty txn_id then pure none else find_transaction_by_id env txn_id

  unfoldable pub process_vnpay_ipn : String → Params → Action IpnResponse
  process_vnpay_ipn wallet_id params =
      if validate_ipn_signature env params
      then (do txn ← find_order (get "vnp_TxnRef" params); settle_found wallet_id params txn)
      else pure invalid_signature

-- `page_size` and `offset` as `get_transaction_history` corrects them.
unfoldable pub history_window : ℤ → ℤ → ℤ × ℤ
history_window page page_size =
    let page' = if ltb_ℤ page (pos 1) then pos 1 else page in
    let size = if ltb_ℤ page_size (pos 1) then pos 10 else page_size in
    let limit = if ltb_ℤ (pos 100) size then pos 100 else size in (limit, (page' -ℤ pos 1) *ℤ limit)
