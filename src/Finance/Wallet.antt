-- ===== src/Finance/Wallet.antt =====
-- services/finance-service/internal/domain/aggregate/wallet.py. A method returns the changed wallet,
-- or the exception that it raises.
pub mod Balances
use rent_a_girlfriend.Prelude.{ℕ, String, ℤ, List, [], ◌∷◌, ◌++◌, ltb, if◌then◌else◌}
use rent_a_girlfriend.Finance.Vo.{
  Money, Result, ok, err, insufficient_balance, insufficient_frozen_balance, add, subtract, ◌>>=◌,
}
use rent_a_girlfriend.Finance.Events.{DomainEvent, coins_frozen, coins_unfrozen, wallet_topped_up}

pub record Wallet : Type 0 where
  pub wallet_id : String
  pub user_id : String
  pub available_balance : Money
  pub frozen_balance : Money
  pub events : List DomainEvent

unfoldable pub create : String → String → Wallet
create wallet_id user_id = record {
  wallet_id = wallet_id;
  user_id = user_id;
  available_balance = 0;
  frozen_balance = 0;
  events = [];
}

unfoldable pub add_event : DomainEvent → Wallet → Wallet
add_event e w = record w { events = w.events ++ e ∷ [] }

-- The events, and the wallet without them.
unfoldable pub clear_events : Wallet → List DomainEvent × Wallet
clear_events w = (w.events, record w { events = [] })

unfoldable pub freeze_coin : Money → String → Wallet → Result Wallet
unfolding add subtract add_event
freeze_coin amount booking_id w =
    if ltb w.available_balance amount
    then err (insufficient_balance w.wallet_id amount w.available_balance)
    else do
      available ← subtract w.available_balance amount
      let w' = record w {
        available_balance = available;
        frozen_balance = add w.frozen_balance amount;
      }
      ok (
          add_event
            (coins_frozen (record {
              wallet_id = w.wallet_id;
              user_id = w.user_id;
              amount = amount;
              booking_id = booking_id;
            }))
            w')

unfoldable pub unfreeze_coin : Money → String → Wallet → Result Wallet
unfolding add subtract add_event
unfreeze_coin amount booking_id w =
    if ltb w.frozen_balance amount
    then err (insufficient_frozen_balance w.wallet_id amount w.frozen_balance)
    else do
      frozen ← subtract w.frozen_balance amount
      let w' = record w {
        frozen_balance = frozen;
        available_balance = add w.available_balance amount;
      }
      ok (
          add_event
            (coins_unfrozen (record {
              wallet_id = w.wallet_id;
              user_id = w.user_id;
              amount = amount;
              booking_id = booking_id;
            }))
            w')

unfoldable pub deduct_frozen : Money → Wallet → Result Wallet
unfolding subtract
deduct_frozen amount w =
    if ltb w.frozen_balance amount
    then err (insufficient_frozen_balance w.wallet_id amount w.frozen_balance)
    else do frozen ← subtract w.frozen_balance amount; ok (record w { frozen_balance = frozen })

unfoldable pub topup : Money → ℤ → Wallet → Wallet
unfolding add add_event
topup amount vnpay_amount_vnd w =
    add_event
      (wallet_topped_up (record {
        wallet_id = w.wallet_id;
        user_id = w.user_id;
        amount = amount;
        vnpay_amount_vnd = vnpay_amount_vnd;
      }))
      (record w { available_balance = add w.available_balance amount })

unfoldable pub deposit : Money → Wallet → Wallet
unfolding add
deposit amount w = record w { available_balance = add w.available_balance amount }
