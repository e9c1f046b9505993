-- ===== src/Finance/Wallet/Balances.antt =====
-- What each method of a wallet does to the two balances, on the branch that returns and on the one
-- that raises.
use rent_a_girlfriend.Prelude.{ℤ, ◌+◌, String, ◌≡◌, refl, [], ◌∷◌, ◌++◌, arith}
use rent_a_girlfriend.Finance.Vo.{Money, ok, add}
use rent_a_girlfriend.Finance.Events.{coins_frozen, coins_unfrozen, wallet_topped_up}
use rent_a_girlfriend.Finance.Wallet.{
  Wallet, freeze_coin, unfreeze_coin, deduct_frozen, deposit, topup, add_event,
}

-- `w'` is `w` with other balances and events.
pub record SameOwner (w w' : Wallet) : Type 0 where
  pub wallet_id : w'.wallet_id ≡ w.wallet_id
  pub user_id : w'.user_id ≡ w.user_id

module _ (a : Money) (b : String) (w w' : Wallet) where
  pub freeze_coin_ok :
      freeze_coin a b w ≡ ok w'
      → SameOwner w w'
        × (w'.available_balance + a ≡ w.available_balance)
        × (w'.frozen_balance ≡ w.frozen_balance + a)
        × (w'.events
            ≡ w.events
              ++ coins_frozen (record {
                wallet_id = w.wallet_id;
                user_id = w.user_id;
                amount = a;
                booking_id = b;
              })
                ∷ [])
  unfolding freeze_coin
  freeze_coin_ok h = (ground arith, ground arith, ground arith, ground arith)

  pub unfreeze_coin_ok :
      unfreeze_coin a b w ≡ ok w'
      → SameOwner w w'
        × (w'.available_balance ≡ w.available_balance + a)
        × (w'.frozen_balance + a ≡ w.frozen_balance)
        × (w'.events
            ≡ w.events
              ++ coins_unfrozen (record {
                wallet_id = w.wallet_id;
                user_id = w.user_id;
                amount = a;
                booking_id = b;
              })
                ∷ [])
  unfolding unfreeze_coin
  unfreeze_coin_ok h = (ground arith, ground arith, ground arith, ground arith)

  pub deduct_frozen_ok :
      deduct_frozen a w ≡ ok w'
      → SameOwner w w'
        × (w'.available_balance ≡ w.available_balance)
        × (w'.frozen_balance + a ≡ w.frozen_balance)
  unfolding deduct_frozen
  deduct_frozen_ok h = (ground arith, ground arith, ground arith)

  pub deposit_ok :
      SameOwner w (deposit a w)
      × ((deposit a w).available_balance ≡ w.available_balance + a)
      × ((deposit a w).frozen_balance ≡ w.frozen_balance)
  unfolding deposit add
  deposit_ok = (record { wallet_id = refl; user_id = refl }, refl, refl)

module _ (a : Money) (v : ℤ) (w : Wallet) where
  pub topup_ok :
      SameOwner w (topup a v w)
      × ((topup a v w).available_balance ≡ w.available_balance + a)
      × ((topup a v w).frozen_balance ≡ w.frozen_balance)
      × ((topup a v w).events
          ≡ w.events
            ++ wallet_topped_up (record {
              wallet_id = w.wallet_id;
              user_id = w.user_id;
              amount = a;
              vnpay_amount_vnd = v;
            })
              ∷ [])
  unfolding topup add add_event
  topup_ok = (record { wallet_id = refl; user_id = refl }, refl, refl, refl)
