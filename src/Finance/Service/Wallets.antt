-- ===== src/Finance/Service/Wallets.antt =====
-- Wallets on demand, and the balance check, of services/finance-service/internal/application/command/finance.py.
pub mod Opening
use rent_a_girlfriend.Prelude.{
  String, ℤ, pos, leb_ℤ, ltb_ℤ, Bool, Option, none, some, if◌then◌else◌,
}
use rent_a_girlfriend.Finance.Vo.{Error}
use rent_a_girlfriend.Finance.Wallet
use rent_a_girlfriend.Finance.Wallet.{Wallet}
use rent_a_girlfriend.Finance.Action.{Action, pure, raise, ◌>>=◌, ◌>>◌}
use rent_a_girlfriend.Finance.Repositories.{Environment, save_wallet, find_wallet_by_user_id}

abbrev pub nil_uuid : String
nil_uuid = "00000000-0000-0000-0000-000000000000"

module _ (env : Environment) where
  -- The rest of `get_or_create_wallet` once the lookup has answered.
  unfoldable pub use_or_create : String → String → Option Wallet → Action Wallet
  unfolding Wallet.create
  use_or_create wallet_id user_id (some wallet) = pure wallet
  use_or_create wallet_id user_id none = do
    let wallet = Wallet.create wallet_id user_id
    save_wallet env wallet
    pure wallet

  unfoldable pub get_or_create_wallet : String → String → Action Wallet
  unfolding use_or_create
  get_or_create_wallet wallet_id user_id = do
    found ← find_wallet_by_user_id env user_id
    use_or_create wallet_id user_id found

  unfoldable pub create_wallet_onboard : String → String → Action Unit
  unfolding get_or_create_wallet
  create_wallet_onboard wallet_id user_id = get_or_create_wallet wallet_id user_id >> pure tt

  unfoldable pub check_balance : String → String → ℤ → Action Bool
  check_balance wallet_id user_id amount =
      if ltb_ℤ amount (pos 0) then raise (Error.invalid_amount amount) else (do
        wallet ← get_or_create_wallet wallet_id user_id
        pure (leb_ℤ amount (pos wallet.available_balance)))
