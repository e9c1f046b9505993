-- ===== src/Finance/Vnpay.antt =====
-- services/finance-service/internal/infrastructure/payment/vnpay.py: the signed payment URL and the
-- check of a callback's signature.
pub mod Signatures
use Prim.Native.String.{◌++◌}
use rent_a_girlfriend.Prelude.{
  ℕ, ◌*◌, String, Bool, true, false, not, ◌&&◌, ◌||◌, Option, none, some, List, [], ◌∷◌, ◌==◌,
  is_empty, if◌then◌else◌,
}
use rent_a_girlfriend.Finance.Repositories.{Environment}

-- A Python dict of strings, in insertion order.
abbrev pub Params : Type 0
Params = List (String × String)

-- `params.get(key)`
unfoldable pub get : String → Params → Option String
get key [] = none
get key ((k, v) ∷ params) = if k == key then some v else get key params

abbrev pub is_hash_field : String → Bool
is_hash_field k = k == "vnp_SecureHash" || k == "vnp_SecureHashType"

-- `{k: v for k, v in params.items() if k not in [...]}`
unfoldable pub without_hash : Params → Params
without_hash [] = []
without_hash ((k, v) ∷ params) =
    let rest = without_hash params in if is_hash_field k then rest else (k, v) ∷ rest

module _ (env : Environment) where
  -- The query string of the sorted parameters, and its signature.
  unfoldable pub query_of : Params → String
  query_of params = env.urlencode (env.sort_items params)

  unfoldable pub sign : Params → String
  unfolding query_of
  sign params = env.hmac_sha512 (query_of params)

  abbrev pub payment_params : String → String → ℕ → String → Params
  payment_params create_date txn_ref amount_vnd ip_address =
      ("vnp_Version", "2.1.0")
      ∷ ("vnp_Command", "pay")
      ∷ ("vnp_TmnCode", env.tmn_code)
      ∷ ("vnp_Amount", env.show_int (amount_vnd * 100))
      ∷ ("vnp_CurrCode", "VND")
      ∷ ("vnp_TxnRef", txn_ref)
      ∷ ("vnp_OrderInfo", "Topup Kano-Coin for transaction " ++ txn_ref)
      ∷ ("vnp_OrderType", "other")
      ∷ ("vnp_Locale", "vn")
      ∷ ("vnp_ReturnUrl", env.return_url)
      ∷ ("vnp_IpAddr", ip_address)
      ∷ ("vnp_CreateDate", create_date)
      ∷ []

  -- `create_date` is the formatted time of the call.
  unfoldable pub generate_payment_url : String → String → ℕ → String → String
  unfolding query_of sign
  generate_payment_url create_date txn_ref amount_vnd ip_address =
      let vnp_params = payment_params create_date txn_ref amount_vnd ip_address in
      env.payment_url ++ "?" ++ query_of vnp_params ++ "&vnp_SecureHash=" ++ sign vnp_params

  unfoldable pub signature_matches : Params → Option String → Bool
  unfolding sign without_hash
  signature_matches vnp_params none = false
  signature_matches vnp_params (some received_hash) =
      not (is_empty received_hash)
      && env.lower (sign (without_hash vnp_params)) == env.lower received_hash

  unfoldable pub validate_ipn_signature : Params → Bool
  unfolding signature_matches get
  validate_ipn_signature vnp_params = signature_matches vnp_params (get "vnp_SecureHash" vnp_params)
